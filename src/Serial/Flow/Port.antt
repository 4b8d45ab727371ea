-- ===== src/Serial/Flow/Port.antt =====
-- expansionhub/ExpansionHubSerial.cpp: what was written to the port.
use scservices.Prelude.{
  ◌≡◌, refl, ap, sym, ◌∙◌, List, [], ◌∷◌, ◌++◌, Bytes, append_assoc, append-nil,
}
use scservices.Platform.{Platform}
use scservices.Serial.{
  Topic, Effect, written, poll_started, poll_stopped, fd_closed, input_flushed, published_int,
  published_double, published_bool,
}
use scservices.Serial.Queue.Flush.{writes}

module _ {p : Platform} where
  -- The bytes that were written to the port, in order.
  abbrev pub port_bytes : List (Effect p) → Bytes
  port_bytes [] = []
  port_bytes (written bs ∷ es) = bs ++ port_bytes es
  port_bytes (_ ∷ es) = port_bytes es

  pub port_bytes-append :
      (xs ys : List (Effect p)) → port_bytes (xs ++ ys) ≡ port_bytes xs ++ port_bytes ys
  port_bytes-append [] ys = refl
  port_bytes-append (written bs ∷ es) ys =
      ap (λ t. bs ++ t) (port_bytes-append es ys)
      ∙ sym (append_assoc bs (port_bytes es) (port_bytes ys))
  port_bytes-append (poll_started n ∷ es) ys = port_bytes-append es ys
  port_bytes-append (poll_stopped ∷ es) ys = port_bytes-append es ys
  port_bytes-append (fd_closed n ∷ es) ys = port_bytes-append es ys
  port_bytes-append (input_flushed n ∷ es) ys = port_bytes-append es ys
  port_bytes-append (published_int t v ∷ es) ys = port_bytes-append es ys
  port_bytes-append (published_double t v ∷ es) ys = port_bytes-append es ys
  port_bytes-append (published_bool t v ∷ es) ys = port_bytes-append es ys

  pub publishing-quiet :
      (es : List (Effect p)) (t : Topic) (v : p.Double)
      → port_bytes (es ++ published_double t v ∷ []) ≡ port_bytes es
  publishing-quiet es t v =
      port_bytes-append es (published_double t v ∷ []) ∙ append-nil (port_bytes es)

pub port_bytes-writes : (p : Platform) (bs : Bytes) → port_bytes {p = p} (writes {p = p} bs) ≡ bs
port_bytes-writes p [] = refl
port_bytes-writes p (b ∷ bs) = append-nil (b ∷ bs)
