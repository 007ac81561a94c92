-- ===== src/Flow/Parse.antt =====
-- What `ra_flow_parse_actions` of drivers/net/ethernet/ralink/ra_ppe_offload.c accepts.
use ralink_fe.Base.{arith, if◌then◌else◌, ◌++◌, Option-cases}
use ralink_fe.Base.{ℕ, ◌≡◌, ◌⊎◌, inl, inr, refl, sym, ap, ◌∙◌, Bool, false}
use ralink_fe.Base.{none, some, List, [], ◌∷◌}
use ralink_fe.Flow.{Result, Errno, ok, err, FlowData, flow_key_from_data}
use ralink_fe.Flow.Mangle.{Mangle, mangle_eth, mangle_ipv4, mangle_ports, mangle_eth_lem}
use ralink_fe.Flow.Actions.{
  Action, mangle, redirect, csum, vlan_push, vlan_pop, pppoe_push, other_action, eth_header,
  ip4_header, ip6_header, tcp_header, udp_header, other_header, first_action, first_pass,
  second_action, second_pass, after_first, parse_actions,
}

pub Result-cases {ℓ} :
    {A : Type ℓ} (r : Result A) → ((a : A) × (r ≡ ok a)) ⊎ ((e : Errno) × (r ≡ err e))
Result-cases (ok a) = inl (a, refl)
Result-cases (err e) = inr (e, refl)

-- The devices that a rule redirects to.
abbrev pub devices : List Action → List ℕ
devices [] = []
devices (redirect (some dev) ∷ acts) = dev ∷ devices acts
devices (redirect none ∷ acts) = devices acts
devices (mangle h m ∷ acts) = devices acts
devices (csum flags ∷ acts) = devices acts
devices (vlan_push proto vid prio ∷ acts) = devices acts
devices (vlan_pop ∷ acts) = devices acts
devices (pppoe_push sid ∷ acts) = devices acts
devices (other_action ∷ acts) = devices acts

-- The VLAN ids that it pushes.
abbrev pub pushed_vids : List Action → List ℕ
pushed_vids [] = []
pushed_vids (vlan_push proto vid prio ∷ acts) = vid ∷ pushed_vids acts
pushed_vids (redirect dev ∷ acts) = pushed_vids acts
pushed_vids (mangle h m ∷ acts) = pushed_vids acts
pushed_vids (csum flags ∷ acts) = pushed_vids acts
pushed_vids (vlan_pop ∷ acts) = pushed_vids acts
pushed_vids (pppoe_push sid ∷ acts) = pushed_vids acts
pushed_vids (other_action ∷ acts) = pushed_vids acts

abbrev pub out_devices : FlowData → List ℕ
out_devices d = elim d.out_dev [ none ↦ [] | some dev ↦ dev ∷ [] ]

abbrev pub out_vids : FlowData → List ℕ
out_vids d = if d.vlan.push then d.vlan.push_vid ∷ [] else []

-- One step of the first loop, with the devices and ids that its action names.
record Stepped (devs vids : List ℕ) (d d' : FlowData) : Type 0 where
  key : flow_key_from_data d' ≡ flow_key_from_data d
  devs_seen : out_devices d' ≡ out_devices d ++ devs
  vids_seen : out_vids d' ≡ out_vids d ++ vids

nil-append : {A : Type 0} (xs : List A) → xs ++ [] ≡ xs
nil-append [] = refl
nil-append (x ∷ xs) = ap (λ l. x ∷ l) (nil-append xs)

append_assoc : {A : Type 0} (xs ys zs : List A) → (xs ++ ys) ++ zs ≡ xs ++ (ys ++ zs)
append_assoc [] ys zs = refl
append_assoc (x ∷ xs) ys zs = ap (λ l. x ∷ l) (append_assoc xs ys zs)

mangle_eth-same : (act : Mangle) (d d' : FlowData) → mangle_eth act d ≡ ok d' → Stepped [] [] d d'
unfolding flow_key_from_data
mangle_eth-same act d d' h =
    ground (arith, mangle_eth_lem act d d' h, nil-append (out_devices d), nil-append (out_vids d))

unchanged-Stepped :
    (seen : Bool) (d : FlowData) (r : Bool × FlowData) → ok (seen, d) ≡ ok r → Stepped [] [] d r.1
unchanged-Stepped seen d r h = ground (arith, nil-append (out_devices d), nil-append (out_vids d))

first_action-Stepped :
    (act : Action) (seen : Bool) (d : FlowData) (r : Bool × FlowData)
    → first_action act seen d ≡ ok r
    → Stepped (devices (act ∷ [])) (pushed_vids (act ∷ [])) d r.1
unfolding first_action flow_key_from_data
first_action-Stepped (mangle eth_header act) seen d r h = elim (Result-cases (mangle_eth act d)) [
  | inl (d', e) ↦ ground (arith, e, mangle_eth-same act d d' e)
  | inr refused ↦ absurd (ground (arith, refused.1))
]
first_action-Stepped (mangle ip4_header act) seen d r h = unchanged-Stepped seen d r h
first_action-Stepped (mangle ip6_header act) seen d r h = unchanged-Stepped seen d r h
first_action-Stepped (mangle tcp_header act) seen d r h = unchanged-Stepped seen d r h
first_action-Stepped (mangle udp_header act) seen d r h = unchanged-Stepped seen d r h
first_action-Stepped (mangle other_header act) seen d r h = unchanged-Stepped seen d r h
first_action-Stepped (redirect none) seen d r h = absurd (ground arith)
first_action-Stepped (redirect (some dev)) seen d r h = ground (arith, nil-append (out_vids d))
first_action-Stepped (csum flags) seen d r h =
    ground (arith, nil-append (out_devices d), nil-append (out_vids d))
first_action-Stepped (vlan_push proto vid prio) seen d r h =
    ground (arith, nil-append (out_devices d))
first_action-Stepped vlan_pop seen d r h =
    ground (arith, nil-append (out_devices d), nil-append (out_vids d))
first_action-Stepped (pppoe_push sid) seen d r h =
    ground (arith, nil-append (out_devices d), nil-append (out_vids d))
first_action-Stepped other_action seen d r h = absurd (ground arith)

devices-cons :
    (act : Action) (acts : List Action) → devices (act ∷ acts) ≡ devices (act ∷ []) ++ devices acts
devices-cons (mangle h m) acts = refl
devices-cons (redirect none) acts = refl
devices-cons (redirect (some dev)) acts = refl
devices-cons (csum flags) acts = refl
devices-cons (vlan_push proto vid prio) acts = refl
devices-cons vlan_pop acts = refl
devices-cons (pppoe_push sid) acts = refl
devices-cons other_action acts = refl

pushed_vids-cons :
    (act : Action) (acts : List Action)
    → pushed_vids (act ∷ acts) ≡ pushed_vids (act ∷ []) ++ pushed_vids acts
pushed_vids-cons (mangle h m) acts = refl
pushed_vids-cons (redirect dev) acts = refl
pushed_vids-cons (csum flags) acts = refl
pushed_vids-cons (vlan_push proto vid prio) acts = refl
pushed_vids-cons vlan_pop acts = refl
pushed_vids-cons (pppoe_push sid) acts = refl
pushed_vids-cons other_action acts = refl

-- Two steps after one another.
Stepped-trans :
    {devs devs' vids vids' : List ℕ} {d d' d'' : FlowData}
    → Stepped devs vids d d'
    → Stepped devs' vids' d' d''
    → Stepped (devs ++ devs') (vids ++ vids') d d''
Stepped-trans {devs} {devs'} {vids} {vids'} {d} s t = record {
  key = t.key ∙ s.key;
  devs_seen =
      t.devs_seen ∙ ap (λ l. l ++ devs') s.devs_seen ∙ append_assoc (out_devices d) devs devs';
  vids_seen = t.vids_seen ∙ ap (λ l. l ++ vids') s.vids_seen ∙ append_assoc (out_vids d) vids vids';
}

first_pass-Stepped :
    (acts : List Action) (seen : Bool) (d d' : FlowData)
    → first_pass acts seen d ≡ ok d'
    → Stepped (devices acts) (pushed_vids acts) d d'
unfolding first_pass
first_pass-Stepped [] seen d d' h =
    ground (arith, nil-append (out_devices d), nil-append (out_vids d))
first_pass-Stepped (act ∷ acts) seen d d' h = elim (Result-cases (first_action act seen d)) [
  | inl (r, e) ↦
      rw (devices-cons act acts, pushed_vids-cons act acts)
        (Stepped-trans (first_action-Stepped act seen d r e)
          (first_pass-Stepped acts r.0 r.1 d' (sym (rw (e, first_pass) refl) ∙ h)))
  | inr refused ↦ absurd (ground (arith, refused.1))
]

-- The second loop writes the new tuple alone.
abbrev OnlyNew : FlowData → FlowData → Type 0
OnlyNew d d' =
    record d' {
      new_src_addr = d.new_src_addr;
      new_dst_addr = d.new_dst_addr;
      new_src_port = d.new_src_port;
      new_dst_port = d.new_dst_port;
    }
    ≡ d

second_action-OnlyNew :
    (act : Action) (d d' : FlowData) → second_action act d ≡ ok d' → OnlyNew d d'
unfolding second_action mangle_ipv4 mangle_ports
second_action-OnlyNew (mangle eth_header m) d d' h = ground arith
second_action-OnlyNew (mangle ip4_header m) d d' h = ground arith
second_action-OnlyNew (mangle ip6_header m) d d' h = absurd (ground arith)
second_action-OnlyNew (mangle tcp_header m) d d' h = ground arith
second_action-OnlyNew (mangle udp_header m) d d' h = ground arith
second_action-OnlyNew (mangle other_header m) d d' h = absurd (ground arith)
second_action-OnlyNew (redirect dev) d d' h = ground arith
second_action-OnlyNew (csum flags) d d' h = ground arith
second_action-OnlyNew (vlan_push proto vid prio) d d' h = ground arith
second_action-OnlyNew vlan_pop d d' h = ground arith
second_action-OnlyNew (pppoe_push sid) d d' h = ground arith
second_action-OnlyNew other_action d d' h = ground arith

second_pass-OnlyNew :
    (acts : List Action) (d d' : FlowData) → second_pass acts d ≡ ok d' → OnlyNew d d'
unfolding second_pass
second_pass-OnlyNew [] d d' h = ground arith
second_pass-OnlyNew (act ∷ acts) d d' h = elim (Result-cases (second_action act d)) [
  | inl (m, e) ↦ ground (
    arith,
    second_pass-OnlyNew acts m d' (sym (rw (e, second_pass) refl) ∙ h),
    second_action-OnlyNew act d m e,
  )
  | inr refused ↦ absurd (ground (arith, refused.1))
]

-- Rules that are accepted name one device to redirect to, which is the flow's, and at most one VLAN id
-- to push, which is the flow's; the tuple that the rule matches stays as it was.
pub parse_actions_lem :
    (hw_stats : Bool) (acts : List Action) (d d' : FlowData)
    → d.out_dev ≡ none
    → d.vlan.push ≡ false
    → parse_actions hw_stats acts d ≡ ok d'
    → ((dev : ℕ) × (d'.out_dev ≡ some dev) × (devices acts ≡ dev ∷ []))
      × (pushed_vids acts ≡ (if d'.vlan.push then d'.vlan.push_vid ∷ [] else []))
      × (flow_key_from_data d' ≡ flow_key_from_data d)
unfolding parse_actions after_first flow_key_from_data
parse_actions_lem hw_stats acts d d' no_dev no_push h =
    elim (Result-cases (first_pass acts false d)) [
      | inl (m, e) ↦ elim (Option-cases m.out_dev) [
        | inl nowhere ↦ absurd (ground (arith, e))
        | inr (dev, somewhere) ↦
            let first = first_pass-Stepped acts false d m e in
            let second = second_pass-OnlyNew acts m d' (ground (arith, e)) in
            (
              (dev, ground (arith, second), ground (arith, first)),
              ground (arith, first, second),
              ground (arith, first, second),
            )
      ]
      | inr refused ↦ absurd (ground (arith, refused.1))
    ]
