-- ===== src/Worker/Truncation/Bytes.antt =====
-- Where `utf8_byte_truncate` of services/worker/src/worker/utils.py cuts a text.
use datasets_server.Prelude.{
  ℕ, zero, suc, ◌≤◌, ◌<◌, true, false, List, take, length, ltb, ◌≡◌, refl, subst, ◌⊎◌, inl, inr,
  arith, Bool-cases,
}
use datasets_server.Worker.Truncation.{utf8_lead_byte, byte_at, back_up, utf8_byte_truncate}

later :
    (utf8 : List ℕ) (i j : ℕ)
    → utf8_lead_byte (byte_at utf8 (suc i)) ≡ false
    → (j ≤ i → utf8_lead_byte (byte_at utf8 j) ≡ false)
    → j ≤ suc i
    → utf8_lead_byte (byte_at utf8 j) ≡ false
later utf8 i j e t k = elim (Bool-cases (ltb i j)) [
  | inl h ↦
      let same : suc i ≡ j = ground (arith, h, k) in
      subst (λ n. utf8_lead_byte (byte_at utf8 n) ≡ false) same e
  | inr h ↦ t (ground (arith, h))
]

-- The loop stops at the last position, up to `i`, of a lead byte, or at 0.
back_up_lem :
    (utf8 : List ℕ) (i : ℕ)
    → (back_up utf8 i ≤ i)
      × ((back_up utf8 i ≡ 0) ⊎ (utf8_lead_byte (byte_at utf8 (back_up utf8 i)) ≡ true))
      × ((j : ℕ) → back_up utf8 i < j → j ≤ i → utf8_lead_byte (byte_at utf8 j) ≡ false)
unfolding back_up
back_up_lem utf8 zero = (omega arith, inl refl, λ j h k. absurd (omega (arith, h, k)))
back_up_lem utf8 (suc i) = elim (Bool-cases (utf8_lead_byte (byte_at utf8 (suc i)))) [
  | inl e ↦ rw (e, back_up) (omega arith, inr e, λ j h k. absurd (omega (arith, h, k)))
  | inr e ↦
      let (le, stop, tail) = back_up_lem utf8 i in
      rw (e, back_up) (omega (arith, le), stop, λ j h k. later utf8 i j e (tail j h) k)
]

-- A text of more than `max_bytes` bytes is cut to its first `n` bytes, where `n` is the last position
-- up to `max_bytes` at which a character starts, or 0; a shorter text is left as it is.
pub utf8_byte_truncate_lem :
    (utf8 : List ℕ) (max_bytes : ℕ)
    → ((length utf8 ≤ max_bytes) × (utf8_byte_truncate utf8 max_bytes ≡ utf8))
      ⊎ ((n : ℕ) × (n ≤ max_bytes)
          × (max_bytes < length utf8)
          × (utf8_byte_truncate utf8 max_bytes ≡ take n utf8)
          × ((n ≡ 0) ⊎ (utf8_lead_byte (byte_at utf8 n) ≡ true))
          × ((j : ℕ) → n < j → j ≤ max_bytes → utf8_lead_byte (byte_at utf8 j) ≡ false))
unfolding utf8_byte_truncate
utf8_byte_truncate_lem utf8 max_bytes = elim (Bool-cases (ltb max_bytes (length utf8))) [
  | inl e ↦
      let (le, stop, tail) = back_up_lem utf8 max_bytes in
      inr
        (back_up utf8 max_bytes, le, ground (arith, e), rw (e, utf8_byte_truncate) refl, stop, tail)
  | inr e ↦ inl (ground (arith, e), rw (e, utf8_byte_truncate) refl)
]
