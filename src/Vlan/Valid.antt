-- ===== src/Vlan/Valid.antt =====
-- What the VLAN cache keeps true.
use ralink_fe.Base.{◌==◌, if◌then◌else◌, bit_and, bit_or, arith}
use ralink_fe.Base.{ℕ, ◌+◌, ◌-◌, ◌↔◌, ◌*◌, ◌/◌, ◌%◌, ◌^◌, ◌≤◌, ◌<◌, ◌≡◌, ◌≢◌, ◌∙◌, refl}
use ralink_fe.Base.Bits.{bit_and-ones}
use ralink_fe.Base.Field.{Field, genmask, field_get, u32_not, field_get-replace, field_get-retain}
use ralink_fe.Mmio.{Regs, r32, w32}
use ralink_fe.Vlan.{vlan_slots, VlanCache, vlan_reset, vlan_id_write_locked, vlan_cache_alloc}

-- The two ids of a word.
abbrev low_vid : Field
low_vid = genmask 11 0

abbrev high_vid : Field
high_vid = genmask 27 16

abbrev pub vid_field : ℕ → Field
vid_field s = if s % 2 == 0 then low_vid else high_vid

-- The id that the hardware finds in slot `s`.
abbrev pub slot_vid : ℕ → Regs → ℕ → ℕ
slot_vid base regs s = field_get (vid_field s) (regs (base + s / 2 * 4))

vid_bits : (vid : ℕ) → vid < 4096 → bit_and vid 0x0fff ≡ vid
vid_bits vid h = omega (arith, bit_and-ones 12 vid)

-- A word with one id replaced holds that id, and the other one as before.
low_word :
    (x v : ℕ)
    → v < 4096
    → let y : ℕ = bit_or (bit_and x (u32_not 0xfff)) v in
      (field_get low_vid y ≡ v) × (field_get high_vid y ≡ field_get high_vid x)
unfolding field_get
low_word x v h = (
  field_get-replace low_vid x (u32_not 0xfff) v refl ∙ omega arith,
  field_get-retain high_vid x (u32_not 0xfff) v refl (omega arith),
)

high_word :
    (x v : ℕ)
    → v < 4096
    → let y : ℕ = bit_or (bit_and x (u32_not (0xfff * 2 ^ 16))) (v * 2 ^ 16) in
      (field_get high_vid y ≡ v) × (field_get low_vid y ≡ field_get low_vid x)
unfolding field_get
high_word x v h = (
  field_get-replace high_vid x (u32_not (0xfff * 2 ^ 16)) (v * 2 ^ 16) refl ∙ omega arith,
  field_get-retain low_vid x (u32_not (0xfff * 2 ^ 16)) (v * 2 ^ 16) refl (omega arith),
)

bit_and-one : (a : ℕ) → bit_and a 1 ≡ a % 2
bit_and-one a = bit_and-ones 1 a

module _ (base : ℕ) where
  -- Writing an id to a slot sets that slot and leaves every other one.
  pub slot_vid-vlan_id_write_locked :
      (regs : Regs) (s t vid : ℕ)
      → vid < 4096
      → slot_vid base (vlan_id_write_locked base regs s vid) t
        ≡ (if s == t then vid else slot_vid base regs t)
  unfolding vlan_id_write_locked r32 w32
  slot_vid-vlan_id_write_locked regs s t vid h = ground (
    arith,
    vid_bits vid h,
    bit_and-one s,
    low_word (regs (base + s / 2 * 4)) vid h,
    high_word (regs (base + s / 2 * 4)) vid h,
  )

  pub record IsValid (v : VlanCache) : Type 0 where
    pub room : v.vlan_next_idx ≤ vlan_slots
    pub allotted : (vid : ℕ) → v.vlan_idx vid ≤ v.vlan_next_idx
    pub distinct : (a b : ℕ) → v.vlan_idx a ≢ 0 → v.vlan_idx a ≡ v.vlan_idx b → a ≡ b
    pub held : (vid s : ℕ) → v.vlan_idx vid ≡ s + 1 → slot_vid base v.regs s ≡ vid

  -- Opening the device empties the cache.
  pub vlan_reset-IsValid : (v : VlanCache) → IsValid (vlan_reset v)
  unfolding vlan_reset
  vlan_reset-IsValid v = record {
    room = omega arith;
    allotted = λ vid. omega arith;
    distinct = λ a b h e. absurd (h refl);
    held = λ vid s e. absurd (omega arith);
  }

  -- Looking an id up, found, added or refused, keeps the cache valid.
  pub vlan_cache_alloc-IsValid :
      (v : VlanCache) (vid : ℕ) → vid < 4096 → IsValid v → IsValid (vlan_cache_alloc base v vid).1
  unfolding vlan_cache_alloc
  vlan_cache_alloc-IsValid v vid h ok = record {
    room = ground (arith, ok.room);
    allotted = λ x. ground (arith, ok.room, ok.allotted x);
    distinct = λ a b n e. ground (arith, ok.room, ok.allotted a, ok.allotted b, ok.distinct a b);
    held = λ x s e. ground (
      arith,
      ok.room,
      ok.allotted x,
      ok.held x s,
      slot_vid-vlan_id_write_locked v.regs v.vlan_next_idx s vid h,
    );
  }

  -- A cached id is found again, at a slot that holds it, without a register write; an id that is not
  -- cached takes the next slot while there is one, and 0 is the answer exactly when there is none.
  pub vlan_cache_alloc_lem :
      (v : VlanCache) (vid : ℕ)
      → vid < 4096
      → IsValid v
      → let (vidx, v') = vlan_cache_alloc base v vid in
        (v.vlan_idx vid ≢ 0 → v' ≡ v)
        × ((vidx ≡ 0) ↔ ((v.vlan_idx vid ≡ 0) × (v.vlan_next_idx ≡ vlan_slots)))
        × (vidx ≢ 0 → (v'.vlan_idx vid ≡ vidx) × (slot_vid base v'.regs (vidx - 1) ≡ vid))
  unfolding vlan_cache_alloc
  vlan_cache_alloc_lem v vid h ok = (
    ground arith,
    (ground (arith, ok.room), ground (arith, ok.room)),
    ground (
      arith,
      ok.room,
      ok.held vid (v.vlan_idx vid - 1),
      slot_vid-vlan_id_write_locked v.regs v.vlan_next_idx v.vlan_next_idx vid h,
    ),
  )

  -- The slots that are taken keep their ids, so descriptors in flight stay valid.
  pub vlan_cache_alloc_stable :
      (v : VlanCache) (vid s : ℕ)
      → vid < 4096
      → s < v.vlan_next_idx
      → slot_vid base (vlan_cache_alloc base v vid).1.regs s ≡ slot_vid base v.regs s
  unfolding vlan_cache_alloc
  vlan_cache_alloc_stable v vid s h below =
      ground (arith, slot_vid-vlan_id_write_locked v.regs v.vlan_next_idx s vid h)
