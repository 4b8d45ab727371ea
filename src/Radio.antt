-- ===== src/Radio.antt =====
-- radio/main.cpp: `startUvLoop` and `main`, and common/version.cpp. What the event loop answers and what the
-- build defines are arguments. The timer is never started: the code that would start it is commented out.
use scservices.Prelude.{
  ℕ, ◌+◌, ◌≡◌, refl, Bool, true, false, ℤ, pos, negsuc, Option, none, some, List, [], ◌∷◌, ◌++◌,
  Bytes, if◌then◌else◌, codes,
}

-- `MRC_GetGitHash` and `MRC_GetBuildTimestamp`, for what the build defines.
unfoldable pub mrc_get_git_hash : Option Bytes → Bytes
mrc_get_git_hash none = codes "Unknown"
mrc_get_git_hash (some hash) = hash

unfoldable pub mrc_get_build_timestamp : Option Bytes → Bytes
mrc_get_build_timestamp none = codes "Unknown"
mrc_get_build_timestamp (some timestamp) = timestamp

-- What the daemon does, in order.
pub data Act : Type 0 where
  server_set : Bytes → ℕ → Act
  client_started : Bytes → Act
  topic_subscribed : Bytes → Bytes → Act
  loop_started timer_created signal_awaited loop_stopped client_stopped instance_destroyed : Act

-- Whether `Timer::Create` makes a timer.
unfoldable pub start_uv_loop : Bool → List Act × Bool
start_uv_loop has_timer = if has_timer then (timer_created ∷ [], true) else ([], false)

-- `main`: what it does, and what it returns.
unfoldable pub main : Bool → List Act × ℤ
unfolding start_uv_loop
main has_timer =
    let (done, success) = start_uv_loop has_timer in
    let started =
      server_set (codes "localhost") 6810
      ∷ client_started (codes "RadioDaemon")
      ∷ topic_subscribed (codes "/sys/team") []
      ∷ loop_started
      ∷ done in
    if success
    then (
      started ++ signal_awaited ∷ loop_stopped ∷ client_stopped ∷ instance_destroyed ∷ [],
      pos 0,
    )
    else (started ++ loop_stopped ∷ [], negsuc 0)

abbrev count_starts : List Act → ℕ
count_starts [] = 0
count_starts (loop_started ∷ acts) = 1 + count_starts acts
count_starts (_ ∷ acts) = count_starts acts

abbrev count_stops : List Act → ℕ
count_stops [] = 0
count_stops (loop_stopped ∷ acts) = 1 + count_stops acts
count_stops (_ ∷ acts) = count_stops acts

-- The event loop is stopped as often as it is started, and `main` returns 0 exactly if there is a timer.
main_stops :
    (has_timer : Bool)
    → let (acts, status) = main has_timer in
      (count_stops acts ≡ count_starts acts) × (status ≡ (if has_timer then pos 0 else negsuc 0))
unfolding main start_uv_loop
main_stops true = (refl, refl)
main_stops false = (refl, refl)
