-- ===== src/V1/Word.antt =====
-- Information block 1 of a PPEv1 entry, field by field: what `ra_ppe_v1_build_foe` writes and what
-- `ra_ppe_v1_foe_commit_locked` makes of it.
use ralink_fe.Base.{◌==◌, ◌!=◌, if◌then◌else◌, bit_and, bit_or, arith, Bool-cases}
use ralink_fe.Base.{ℕ, ◌%◌, ◌^◌, ◌≡◌, refl, Bool, ◌∙◌, inl, inr}
use ralink_fe.Base.Bits.{bit_or-zero, zero-bit_or}
use ralink_fe.Base.Field.{Field, field_prep, field_get, field_get-bit_or, bit_and-mask}
use ralink_fe.Flow.{ipproto_udp}
use ralink_fe.V1.{
  ib1_pkt_type, ib1_state, ib1_udp, ib1_bind_timestamp, ib1_vlan1_action, ib1_vlan2_action,
  ib1_snap_action, ib1_pppoe_action, ib1_ttl, ib1_keepalive, foe_state_bind, foe_state_invalid,
  foe_ipv4_hnapt, act_none, act_insert, act_delete,
}
use ralink_fe.Slots.Word.{udp_bit, commit_word-keeps, commit_word-state, commit_word-timestamp}
use ralink_fe.V1.Offload.{commit_ib1}
use ralink_fe.V1.Build.{Output, build_ib1}

-- The test of the UDP bit reads the field.
pub udp_test : (x : ℕ) → (bit_and x ib1_udp != 0) ≡ (field_get udp_bit x != 0)
udp_test x = ground (arith, bit_and-mask udp_bit x)

pub record Committed (x ts y : ℕ) : Type 0 where
  pub state : field_get ib1_state y ≡ foe_state_bind
  pub timestamp : field_get ib1_bind_timestamp y ≡ ts % 2 ^ 16
  pub pkt_type : field_get ib1_pkt_type y ≡ field_get ib1_pkt_type x
  pub udp : field_get udp_bit y ≡ field_get udp_bit x
  pub vlan1_action : field_get ib1_vlan1_action y ≡ field_get ib1_vlan1_action x
  pub vlan2_action : field_get ib1_vlan2_action y ≡ field_get ib1_vlan2_action x
  pub pppoe_action : field_get ib1_pppoe_action y ≡ field_get ib1_pppoe_action x

-- The committed word is a BIND with the current timestamp, and else what the template says.
pub commit_ib1-Committed : (x ts : ℕ) → Committed x ts (commit_ib1 x ts)
unfolding commit_ib1 field_get field_prep
commit_ib1-Committed x ts = record {
  state = commit_word-state ib1_bind_timestamp x ts refl (omega arith);
  timestamp = commit_word-timestamp ib1_bind_timestamp x ts refl refl refl;
  pkt_type = commit_word-keeps ib1_bind_timestamp x ts ib1_pkt_type refl (omega arith) refl refl;
  udp = commit_word-keeps ib1_bind_timestamp x ts udp_bit refl (omega arith) refl refl;
  vlan1_action =
      commit_word-keeps ib1_bind_timestamp x ts ib1_vlan1_action refl (omega arith) refl refl;
  vlan2_action =
      commit_word-keeps ib1_bind_timestamp x ts ib1_vlan2_action refl (omega arith) refl refl;
  pppoe_action =
      commit_word-keeps ib1_bind_timestamp x ts ib1_pppoe_action refl (omega arith) refl refl;
}

-- The fields of the word that a template begins with.
pub record Built (l4proto : ℕ) (out : Output) (y : ℕ) : Type 0 where
  pub state : field_get ib1_state y ≡ foe_state_invalid
  pub pkt_type : field_get ib1_pkt_type y ≡ foe_ipv4_hnapt
  pub udp : field_get udp_bit y ≡ (if l4proto == ipproto_udp then 1 else 0)
  pub vlan1_action : field_get ib1_vlan1_action y ≡ out.vlan1_action % 4
  pub vlan2_action : field_get ib1_vlan2_action y ≡ out.vlan2_action % 4
  pub pppoe_action : field_get ib1_pppoe_action y ≡ (if out.pppoe then act_insert else act_delete)

-- The parts of the word, as they are joined by `|`.
abbrev part_proto : ℕ → ℕ
part_proto l4proto =
    let pkt_type : ℕ = field_prep ib1_pkt_type foe_ipv4_hnapt in
    if l4proto == ipproto_udp then bit_or pkt_type ib1_udp else pkt_type

abbrev part_pppoe : Bool → ℕ
part_pppoe pppoe = field_prep ib1_pppoe_action (if pppoe then act_insert else act_delete)

-- A field of the word is the `|` of that field of each part.
build_ib1-parts :
    (f : Field) (l4proto : ℕ) (out : Output) {p a b c d t k z : ℕ}
    → field_get f (part_proto l4proto) ≡ p
    → field_get f (field_prep ib1_vlan1_action out.vlan1_action) ≡ a
    → field_get f (field_prep ib1_vlan2_action out.vlan2_action) ≡ b
    → field_get f (field_prep ib1_snap_action act_none) ≡ c
    → field_get f (part_pppoe out.pppoe) ≡ d
    → field_get f ib1_ttl ≡ t
    → field_get f ib1_keepalive ≡ k
    → field_get f (field_prep ib1_state foe_state_invalid) ≡ z
    → field_get f (build_ib1 l4proto out)
      ≡ bit_or (bit_or (bit_or (bit_or (bit_or (bit_or (bit_or p a) b) c) d) t) k) z
unfolding build_ib1
build_ib1-parts f l4proto out p a b c d t k z = simp (field_get-bit_or, p, a, b, c, d, t, k, z)

-- The protocol shows in the UDP bit alone.
part_proto_lem :
    (l4proto : ℕ) → part_proto l4proto ≡ (if l4proto == ipproto_udp then ib1_udp else 0)
unfolding field_prep
part_proto_lem l4proto = refl

part_proto-clear :
    (f : Field) (l4proto : ℕ)
    → field_get f ib1_udp ≡ 0
    → field_get f 0 ≡ 0
    → field_get f (part_proto l4proto) ≡ 0
part_proto-clear f l4proto u z = elim (Bool-cases (l4proto == ipproto_udp)) [
  | inl is_udp ↦ rw (part_proto_lem l4proto, is_udp) u
  | inr other ↦ rw (part_proto_lem l4proto, other) z
]

part_proto-udp :
    (l4proto : ℕ)
    → field_get udp_bit (part_proto l4proto) ≡ (if l4proto == ipproto_udp then 1 else 0)
unfolding field_get
part_proto-udp l4proto = elim (Bool-cases (l4proto == ipproto_udp)) [
  | inl is_udp ↦ rw (part_proto_lem l4proto, is_udp) refl
  | inr other ↦ rw (part_proto_lem l4proto, other) refl
]

-- The word of a template: not yet valid, of type HNAPT, with the protocol and the actions asked for.
pub build_ib1-Built : (l4proto : ℕ) (out : Output) → Built l4proto out (build_ib1 l4proto out)
unfolding field_get field_prep
build_ib1-Built l4proto out = record {
  state =
      build_ib1-parts ib1_state l4proto out {a = 0} {b = 0} {d = 0}
        (part_proto-clear ib1_state l4proto refl refl) (omega arith) (omega arith) refl
        (ground arith) refl refl refl;
  pkt_type =
      build_ib1-parts ib1_pkt_type l4proto out {a = 0} {b = 0} {d = 0}
        (part_proto-clear ib1_pkt_type l4proto refl refl) (omega arith) (omega arith) refl
        (ground arith) refl refl refl;
  udp =
      build_ib1-parts udp_bit l4proto out {a = 0} {b = 0} {d = 0} (part_proto-udp l4proto)
        (omega arith) (omega arith) refl (ground arith) refl refl refl
      ∙ simp bit_or-zero;
  vlan1_action =
      build_ib1-parts ib1_vlan1_action l4proto out {a = out.vlan1_action % 4} {b = 0} {d = 0}
        (part_proto-clear ib1_vlan1_action l4proto refl refl) (omega arith) (omega arith) refl
        (ground arith) refl refl refl
      ∙ simp (bit_or-zero, zero-bit_or);
  vlan2_action =
      build_ib1-parts ib1_vlan2_action l4proto out {a = 0} {b = out.vlan2_action % 4} {d = 0}
        (part_proto-clear ib1_vlan2_action l4proto refl refl) (omega arith) (omega arith) refl
        (ground arith) refl refl refl
      ∙ simp (bit_or-zero, zero-bit_or);
  pppoe_action =
      build_ib1-parts ib1_pppoe_action l4proto out {a = 0} {b = 0}
        {d = if out.pppoe then act_insert else act_delete}
        (part_proto-clear ib1_pppoe_action l4proto refl refl) (omega arith) (omega arith) refl
        (ground arith) refl refl refl
      ∙ simp (bit_or-zero, zero-bit_or);
}
