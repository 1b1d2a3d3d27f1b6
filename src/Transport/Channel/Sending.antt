-- ===== src/Transport/Channel/Sending.antt =====
-- `sendAll` and the loop of `sendFrame` send a beginning of the bytes, all of them on success.
use squid_storage.Prelude.{
  ℕ, zero, suc, ◌≡◌, refl, ◌∙◌, sym, ap, Bool, true, false, List, [], ◌∷◌, ◌++◌, append-nil,
  append_assoc,
}
use squid_storage.Prelude.Lists.{take, drop, take-append_drop}
use squid_storage.Prelude.Key.{Bytes}
use squid_storage.Transport.Channel.{Written, took, refused, send_all}

abbrev is_empty : Bytes → Bool
is_empty [] = true
is_empty (b ∷ s) = false

-- Some bytes were not sent, none of them exactly if the call succeeded.
abbrev Remains : Bytes → Bytes × Bool × List Written → Type 0
Remains s (sent, all_sent, ws) = (left : Bytes) × (sent ++ left ≡ s) × (all_sent ≡ is_empty left)

keeps_Remains :
    (b k : ℕ) (s : Bytes) (result : Bytes × Bool × List Written)
    → Remains (drop k s) result
    → Remains (b ∷ s) (b ∷ take k s ++ result.0, result.1, result.2)
keeps_Remains b k s (sent, all_sent, ws) (left, e, f) =
    (left, ap (λ r. b ∷ r) (append_assoc (take k s) sent left ∙ rw e (take-append_drop k s)), f)

-- Whatever the network takes in each call, the bytes sent are the beginning of the block, in order
-- and without a gap, and the call succeeds exactly if no byte is left.
pub send_all-prefix :
    (s : Bytes) (ws : List Written)
    → (left : Bytes) × ((send_all s ws).0 ++ left ≡ s) × ((send_all s ws).1 ≡ is_empty left)
unfolding send_all
send_all-prefix [] ws = ([], refl, refl)
send_all-prefix (b ∷ s) [] = (b ∷ s, refl, refl)
send_all-prefix (b ∷ s) (refused ∷ ws) = (b ∷ s, refl, refl)
send_all-prefix (b ∷ s) (took zero ∷ ws) = (b ∷ s, refl, refl)
send_all-prefix (b ∷ s) (took (suc k) ∷ ws) =
    keeps_Remains b k s (send_all (drop k s) ws) (send_all-prefix (drop k s) ws)

-- What was left is nothing, so that all was sent.
none_left : (sent left s : Bytes) → sent ++ left ≡ s → is_empty left ≡ true → sent ≡ s
none_left sent [] s e h = sym (append-nil sent) ∙ e
none_left sent (b ∷ left) s e h = absurd (cc)

pub send_all_complete :
    (s : Bytes) (ws : List Written) → (send_all s ws).1 ≡ true → (send_all s ws).0 ≡ s
send_all_complete s ws h =
    let (left, e, f) = send_all-prefix s ws in none_left (send_all s ws).0 left s e (sym f ∙ h)
