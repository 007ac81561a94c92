-- ===== src/Slots/Word.antt =====
-- The state word that both generations commit: the template's, with the timestamp, the TTL bit and the
-- state BIND put in. The generations differ in the width of the timestamp.
use ralink_fe.Base.{bit_and, bit_or}
use ralink_fe.Base.{ℕ, ◌-◌, ◌%◌, ◌^◌, ◌≡◌, refl, ◌∙◌}
use ralink_fe.Base.Field.{
  Field, genmask, bit, mask, u32_not, field_prep, field_get, field_get-field_prep,
  field_get-or_left, field_get-or_right, field_get-retain, field_get-replace,
}

abbrev pub state_field : Field
state_field = genmask 29 28

abbrev pub ttl_bit : ℕ
ttl_bit = bit 24

abbrev pub udp_bit : Field
udp_bit = genmask 30 30

-- The fields that are outside the timestamp, the TTL bit and the state.
abbrev pub kept_mask : Field → ℕ
kept_mask stamp = u32_not (bit_or (bit_or (mask stamp) ttl_bit) (mask state_field))

abbrev pub stamped : Field → ℕ → ℕ → ℕ
stamped stamp x ts = bit_or (bit_and x (kept_mask stamp)) (field_prep stamp ts)

abbrev pub commit_word : Field → ℕ → ℕ → ℕ
commit_word stamp x ts = bit_or (bit_or (stamped stamp x ts) ttl_bit) (field_prep state_field 2)

module _ (stamp : Field) (x ts : ℕ) where
  -- A field that the commit does not set keeps its value.
  pub commit_word-keeps :
      (f : Field)
      → field_get f (kept_mask stamp) ≡ 2 ^ f.width - 1
      → field_get f (field_prep stamp ts) ≡ 0
      → field_get f ttl_bit ≡ 0
      → field_get f (field_prep state_field 2) ≡ 0
      → field_get f (commit_word stamp x ts) ≡ field_get f x
  commit_word-keeps f kept ts0 ttl0 state0 =
      field_get-or_left f _ _ state0
      ∙ field_get-or_left f _ _ ttl0
      ∙ field_get-retain f x (kept_mask stamp) _ kept ts0

  pub commit_word-state :
      field_get state_field (kept_mask stamp) ≡ 0
      → field_get state_field (field_prep stamp ts) ≡ 0
      → field_get state_field (commit_word stamp x ts) ≡ 2
  unfolding field_get field_prep
  commit_word-state kept ts0 =
      field_get-or_right state_field (bit_or (stamped stamp x ts) ttl_bit)
        (field_prep state_field 2)
        (field_get-or_left state_field (stamped stamp x ts) ttl_bit refl
          ∙ field_get-replace state_field x (kept_mask stamp) (field_prep stamp ts) kept
          ∙ ts0)

  pub commit_word-timestamp :
      field_get stamp (kept_mask stamp) ≡ 0
      → field_get stamp ttl_bit ≡ 0
      → field_get stamp (field_prep state_field 2) ≡ 0
      → field_get stamp (commit_word stamp x ts) ≡ ts % 2 ^ stamp.width
  commit_word-timestamp kept ttl0 state0 =
      field_get-or_left stamp _ _ state0
      ∙ field_get-or_left stamp _ _ ttl0
      ∙ field_get-replace stamp x (kept_mask stamp) (field_prep stamp ts) kept
      ∙ field_get-field_prep stamp ts

-- The state of the word that is stored first.
pub invalid_word :
    (word : ℕ)
    → field_get state_field
        (bit_or (bit_and word (u32_not (mask state_field))) (field_prep state_field 0))
      ≡ 0
unfolding field_get field_prep
invalid_word word = field_get-replace state_field word (u32_not (mask state_field)) 0 refl
