-- ===== src/CachedCommand/Laws.antt =====
-- expansionhub/CachedCommand.h: when a setting is sent, and when it is taken to be known to the hub.
use mathlib.Core.Path.{subst}
use scservices.Prelude.{
  Bool, true, false, Option, none, some, List, [], ◌∷◌, ◌≡◌, ◌⊎◌, inl, inr, refl, ap, sym, ◌∙◌,
  arith, Eq, bool_eq,
}
use scservices.CachedCommand.{CachedCommand, is_acked, force_reset, ack, get, get_with_can_enable}

-- A request leaves the setting as it was and sends nothing, or sends the value and waits for a reply.
get-cases :
    {V : Type 0} ⦃e : Eq V⦄ (v : V) (c : CachedCommand V)
    → (((get v c).1 ≡ none) × ((get v c).0 ≡ c))
      ⊎ (((get v c).1 ≡ some v)
          × ((get v c).0 ≡ record { last_acked_value = none; last_attempted_value = v }))
unfolding get
get-cases v c = ground arith

is_acked-eq : {V : Type 0} ⦃e : Eq V⦄ (v : V) (o : Option V) → is_acked v o ≡ true → o ≡ some v
is_acked-eq v none h = cc
is_acked-eq ⦃e⦄ v (some w) h = ap some (sym ((e.beq_iff v w).0 h))

-- What is not sent is the value that was acknowledged.
get-none :
    {V : Type 0} ⦃e : Eq V⦄ (v : V) (c : CachedCommand V)
    → (get v c).1 ≡ none
    → c.last_acked_value ≡ some v
unfolding get
get-none v c skip = is_acked-eq v c.last_acked_value (skipped_test v c skip)
  where
    skipped_test :
        {A : Type 0} ⦃e : Eq A⦄ (w : A) (d : CachedCommand A)
        → (get w d).1 ≡ none
        → is_acked w d.last_acked_value ≡ true
    skipped_test w d h = ground arith

-- What happens to a setting, as the code calls it.
pub data Call (V : Type 0) : Type 0 where
  asked : V → Call V
  replied : Call V
  forgotten : Call V

module _ {V : Type 0} ⦃e : Eq V⦄ where
  unfoldable pub after : Call V → CachedCommand V → CachedCommand V
  after (asked v) c = (get v c).0
  after replied c = ack c
  after forgotten c = force_reset c

  -- The setting after a history, its last call first.
  unfoldable pub run : CachedCommand V → List (Call V) → CachedCommand V
  run c [] = c
  run c (x ∷ h) = after x (run c h)

module _ {V : Type 0} ⦃e : Eq V⦄ (c : CachedCommand V) where
  -- The last value that a history sent is `v`: every later request met an acknowledged value.
  pub data Sent (v : V) : List (Call V) → Type 0 where
    now : {h : List (Call V)} → (get v (run c h)).1 ≡ some v → Sent v (asked v ∷ h)
    skipped :
        {h : List (Call V)} {w : V} → (get w (run c h)).1 ≡ none → Sent v h → Sent v (asked w ∷ h)
    other : {h : List (Call V)} → Sent v h → Sent v (replied ∷ h)
    reset : {h : List (Call V)} → Sent v h → Sent v (forgotten ∷ h)

  -- A history that sent nothing.
  pub data Unsent : List (Call V) → Type 0 where
    nothing : Unsent []
    skips :
        {h : List (Call V)} {w : V} → (get w (run c h)).1 ≡ none → Unsent h → Unsent (asked w ∷ h)
    reply : {h : List (Call V)} → Unsent h → Unsent (replied ∷ h)
    forget : {h : List (Call V)} → Unsent h → Unsent (forgotten ∷ h)

  -- The hub has acknowledged since it was last sent a value and since the last reset.
  pub data Known (v : V) : List (Call V) → Type 0 where
    told : {h : List (Call V)} → Sent v h → Known v (replied ∷ h)
    still :
        {h : List (Call V)} {w : V} → (get w (run c h)).1 ≡ none → Known v h → Known v (asked w ∷ h)

  -- A reply came with nothing sent, and no reset since.
  pub data Stray : List (Call V) → Type 0 where
    came : {h : List (Call V)} → Unsent h → Stray (replied ∷ h)
    stays : {h : List (Call V)} {w : V} → (get w (run c h)).1 ≡ none → Stray h → Stray (asked w ∷ h)

  -- What is remembered as attempted is the last value sent, or what was there at the start.
  abbrev Attempted : V → List (Call V) → Type 0
  Attempted v h = Sent v h ⊎ (Unsent h × (v ≡ c.last_attempted_value))

  abbrev Acked : V → List (Call V) → Type 0
  Acked v h = Known v h ⊎ (Stray h × (v ≡ c.last_attempted_value))

  asked-Attempted :
      (v w : V) (h : List (Call V))
      → (get v (run c h)).1 ≡ none
      → Attempted w h
      → Attempted w (asked v ∷ h)
  asked-Attempted v w h skip (inl k) = inl (skipped skip k)
  asked-Attempted v w h skip (inr k) = inr (skips skip k.0, k.1)

  replied-Attempted : (w : V) (h : List (Call V)) → Attempted w h → Attempted w (replied ∷ h)
  replied-Attempted w h (inl k) = inl (other k)
  replied-Attempted w h (inr k) = inr (reply k.0, k.1)

  forgotten-Attempted : (w : V) (h : List (Call V)) → Attempted w h → Attempted w (forgotten ∷ h)
  forgotten-Attempted w h (inl k) = inl (reset k)
  forgotten-Attempted w h (inr k) = inr (forget k.0, k.1)

  Attempted-Acked : (w : V) (h : List (Call V)) → Attempted w h → Acked w (replied ∷ h)
  Attempted-Acked w h (inl k) = inl (told k)
  Attempted-Acked w h (inr k) = inr (came k.0, k.1)

  asked-Acked :
      (v w : V) (h : List (Call V)) → (get w (run c h)).1 ≡ none → Acked v h → Acked v (asked w ∷ h)
  asked-Acked v w h skip (inl k) = inl (still skip k)
  asked-Acked v w h skip (inr k) = inr (stays skip k.0, k.1)

  run-Attempted : (h : List (Call V)) → Attempted (run c h).last_attempted_value h
  unfolding run after ack force_reset
  run-Attempted [] = inr (nothing, refl)
  run-Attempted (asked v ∷ h) = elim (get-cases v (run c h)) [
    | inl (skip, same) ↦
        subst (λ d. Attempted d.last_attempted_value (asked v ∷ h)) (sym same)
          (asked-Attempted v _ h skip (run-Attempted h))
    | inr (sent, new) ↦
        subst (λ d. Attempted d.last_attempted_value (asked v ∷ h)) (sym new) (inl (now sent))
  ]
  run-Attempted (replied ∷ h) = replied-Attempted _ h (run-Attempted h)
  run-Attempted (forgotten ∷ h) = forgotten-Attempted _ h (run-Attempted h)

  run-Acked :
      {v : V} (h : List (Call V))
      → c.last_acked_value ≡ none
      → (run c h).last_acked_value ≡ some v
      → Acked v h
  unfolding run after ack force_reset
  run-Acked [] fresh k = cc
  run-Acked {v} (asked w ∷ h) fresh k = elim (get-cases w (run c h)) [
    | inl (skip, same) ↦
        asked-Acked v w h skip (run-Acked h fresh (ap (λ d. d.last_acked_value) (sym same) ∙ k))
    | inr (sent, new) ↦ absurd (cc (ap (λ d. d.last_acked_value) (sym new) ∙ k))
  ]
  run-Acked {v} (replied ∷ h) fresh k =
      let same : (run c h).last_attempted_value ≡ v = cc in
      subst (λ w. Acked w (replied ∷ h)) same (Attempted-Acked _ h (run-Attempted h))
  run-Acked (forgotten ∷ h) fresh k = cc

  -- From a setting with nothing acknowledged: a request sends nothing only if its value is the last
  -- one that was sent, and a reply has come since, with no reset and no other value sent after it; or
  -- if nothing was sent at all, a reply has come all the same, with no reset after it, and the value is
  -- the one that was there at the start.
  pub get-Known :
      (h : List (Call V)) (v : V)
      → c.last_acked_value ≡ none
      → (get v (run c h)).1 ≡ none
      → Known v h ⊎ (Stray h × (v ≡ c.last_attempted_value))
  get-Known h v fresh skip = run-Acked h fresh (get-none v (run c h) skip)

-- With the hub not to be enabled no request sends `true`, and a request sends `false` unless the
-- hub has acknowledged `false`.
pub get_with_can_enable-false :
    (value : Bool) (c : CachedCommand Bool)
    → ((get_with_can_enable false value c).1 ≡ some false)
      ⊎ (((get_with_can_enable false value c).1 ≡ none) × (c.last_acked_value ≡ some false))
unfolding get_with_can_enable
get_with_can_enable-false value c = ground arith

-- What is sent is `true` only with the hub to be enabled.
pub get_with_can_enable-on :
    (can_enable value : Bool) (c : CachedCommand Bool) (v : Bool)
    → (get_with_can_enable can_enable value c).1 ≡ some v
    → v ≡ true
    → can_enable ≡ true
unfolding get_with_can_enable
get_with_can_enable-on true value c v sent on = refl
get_with_can_enable-on false value c v sent on = ground arith
