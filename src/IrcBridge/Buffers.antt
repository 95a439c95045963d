-- ===== src/IrcBridge/Buffers.antt =====
-- wlms/ircbridge.go: a channel to which items are offered by select.
use widelands_metaserver.Base.{
  ℕ, zero, suc, ◌≤◌, List, [], ◌∷◌, ◌++◌, append_assoc, append-nil, ltb, length, length-append,
  take, ◌≡◌, refl, ap, sym, ◌∙◌, subst, arith, Bool-cases, inl, inr,
}
use widelands_metaserver.Packet.RoundTrip.{take-append}
use widelands_metaserver.IrcBridge.{offer}

take_all {ℓ} : {A : Type ℓ} (n : ℕ) (q : List A) → length q ≤ n → take n q ≡ q
take_all zero [] h = refl
take_all (suc n) [] h = refl
take_all zero (x ∷ xs) h = absurd (omega (arith, h))
take_all (suc n) (x ∷ xs) h = ap (λ ys. x ∷ ys) (take_all n xs (omega (arith, h)))

take_again {ℓ} : {A : Type ℓ} (n : ℕ) (q xs : List A) → take n (take n q ++ xs) ≡ take n (q ++ xs)
take_again zero q xs = refl
take_again (suc n) [] xs = refl
take_again (suc n) (x ∷ q) xs = ap (λ ys. x ∷ ys) (take_again n q xs)

offer-take {ℓ} :
    {A : Type ℓ} (size : ℕ) (x : A) (q : List A)
    → length q ≤ size
    → offer size x q ≡ take size (q ++ (x ∷ []))
unfolding offer
offer-take size x q h = elim (Bool-cases (ltb (length q) size)) [
  | inl e ↦
      rw (offer, e) (sym (take_all size (q ++ (x ∷ [])) (ground (arith, length-append q (x ∷ [])))))
  | inr e ↦
      let full : size ≡ length q = ground (arith, h) in
      rw (offer, e) (sym (ap (λ n. take n (q ++ (x ∷ []))) full ∙ take-append q (x ∷ [])))
]

length-take_le {ℓ} : {A : Type ℓ} (n : ℕ) (q : List A) → length (take n q) ≤ n
length-take_le zero q = omega arith
length-take_le (suc n) [] = omega arith
length-take_le (suc n) (x ∷ q) = omega (arith, length-take_le n q)

-- A buffer after some items were offered: those that fit, in order.
pub record Follows {ℓ} {A : Type ℓ} (size : ℕ) (q xs q' : List A) : Type ℓ where
  pub filled : q' ≡ take size (q ++ xs)

pub Follows-none {ℓ} : {A : Type ℓ} (size : ℕ) (q : List A) → length q ≤ size → Follows size q [] q
Follows-none size q h = record { filled = sym (ap (take size) (append-nil q) ∙ take_all size q h) }

pub Follows-offer {ℓ} :
    {A : Type ℓ} (size : ℕ) (x : A) (q : List A)
    → length q ≤ size
    → Follows size q (x ∷ []) (offer size x q)
Follows-offer size x q h = record { filled = offer-take size x q h }

pub Follows-trans {ℓ} :
    {A : Type ℓ} (size : ℕ) (q xs q' ys q'' : List A)
    → Follows size q xs q'
    → (length q' ≤ size → Follows size q' ys q'')
    → Follows size q (xs ++ ys) q''
Follows-trans size q xs q' ys q'' h k =
    let short : length q' ≤ size =
      subst (λ z. length z ≤ size) (sym h.filled) (length-take_le size (q ++ xs)) in
    record {
      filled =
          (k short).filled
          ∙ ap (λ z. take size (z ++ ys)) h.filled
          ∙ take_again size (q ++ xs) ys
          ∙ ap (take size) (append_assoc q xs ys);
    }
