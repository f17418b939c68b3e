-- ===== src/Checks/Run/Targets.antt =====
-- Where the addresses that may be probed come from.
use mojodns.Prelude.{
  Bool, true, false, ◌&&◌, ◌||◌, List, [], ◌∷◌, ◌++◌, Option, none, some, filter, any, elem,
  elem-append, append_new, Result, ok, err, pure, continue, catch_pdns, pdns_error, http_error,
  value_error, crash, ◌≟◌, ≟_iff, ◌≡◌, refl, sym, ◌∙◌, ap, subst, ◌⊎◌, inl, inr, Bool-cases, arith,
}
use mojodns.Text.{Text, codes, rstrip_char}
use mojodns.Pdns.{canonical}
use mojodns.Pdns.Types.{Api, Rec, Rrset, Zone}
use mojodns.Pdns.Zones as Client
use mojodns.Db.{World}
use mojodns.Checks.Guard.{is_public_ip}
use mojodns.Checks.Probe.{Network}
use mojodns.Checks.Run.{
  Resolve, add_all, add_answer, resolve_ips, add_contents, cname_of, own_step, own_targets,
  or_resolved, public_only, check_targets,
}

-- An rrset of that name holds the text, as an address or as an alias.
abbrev pub holds : Text → Rrset → Bool
holds t rr = any (λ r. t ≟ r.content) rr.records

abbrev pub holds_address : Text → Text → Rrset → Bool
holds_address name ip rr =
    rr.name ≟ name && ((rr.rtype ≟ codes "A" || rr.rtype ≟ codes "AAAA") && holds ip rr)

abbrev pub holds_alias : Text → Text → Rrset → Bool
holds_alias name c rr = rr.name ≟ name && (rr.rtype ≟ codes "CNAME" && holds c rr)

abbrev pub gives : Option (List Text) → Text → Bool
gives none ip = false
gives (some addresses) ip = elem ip addresses

-- The address is one of the zone's own records of the name, or an alias among them resolves to it.
abbrev pub Published : Resolve → Text → List Rrset → Text → Type 0
Published resolve name rrsets ip =
    (any (holds_address name ip) rrsets ≡ true)
    ⊎ ((c : Text) × (any (holds_alias name c) rrsets ≡ true)
        × ((gives (resolve (rstrip_char b'.' c ++ b'.' ∷ []) (codes "A")) ip
              || gives (resolve (rstrip_char b'.' c ++ b'.' ∷ []) (codes "AAAA")) ip)
            ≡ true))

or_assoc : (a b c : Bool) → ((a || b) || c) ≡ (a || (b || c))
or_assoc true b c = refl
or_assoc false b c = refl

elem-append_new :
    (ip a : Text) (out : List Text) → elem ip (append_new a out) ≡ (elem ip out || ip ≟ a)
unfolding append_new elem
elem-append_new ip a out = elim (Bool-cases (elem a out)) [
  | inl e ↦ rw e (elim (Bool-cases (ip ≟ a)) [
    | inl f ↦
        rw f (ground (arith, subst (λ (x : Text). elem x out ≡ true) (sym ((≟_iff ip a).0 f)) e))
    | inr f ↦ rw f (ground arith)
  ])
  | inr e ↦ rw e (elem-append ip out (a ∷ []) ∙ ground arith)
]

elem-add_all :
    (ip : Text) (out answers : List Text)
    → elem ip (add_all out answers) ≡ (elem ip out || elem ip answers)
unfolding add_all elem
elem-add_all ip out [] = ground arith
elem-add_all ip out (a ∷ answers) =
    ground (arith, elem-add_all ip (append_new a out) answers, elem-append_new ip a out)

elem-add_contents :
    (ip : Text) (ips : List Text) (rs : List Rec)
    → elem ip (add_contents ips rs) ≡ (elem ip ips || any (λ r. ip ≟ r.content) rs)
unfolding add_contents any
elem-add_contents ip ips [] = ground arith
elem-add_contents ip ips (r ∷ rs) =
    ground
      (arith, elem-add_contents ip (append_new r.content ips) rs, elem-append_new ip r.content ips)

elem-add_answer :
    (ip : Text) (out : List Text) (answer : Option (List Text))
    → elem ip (add_answer out answer) ≡ (elem ip out || gives answer ip)
elem-add_answer ip out none = ground arith
elem-add_answer ip out (some addresses) = elem-add_all ip out addresses

elem-resolve_ips :
    (ip : Text) (resolve : Resolve) (c : Text)
    → elem ip (resolve_ips resolve c) ≡ (
        gives (resolve (rstrip_char b'.' c ++ b'.' ∷ []) (codes "A")) ip
        || gives (resolve (rstrip_char b'.' c ++ b'.' ∷ []) (codes "AAAA")) ip)
unfolding resolve_ips elem
elem-resolve_ips ip resolve c =
    let full = rstrip_char b'.' c ++ b'.' ∷ [] in
    elem-add_answer ip (add_answer [] (resolve full (codes "A"))) (resolve full (codes "AAAA"))
    ∙ ap (λ b. b || gives (resolve full (codes "AAAA")) ip)
        (elem-add_answer ip [] (resolve full (codes "A")))

cname_of-holds :
    (rs : List Rec) (cname : Option Text) (c : Text)
    → cname_of rs cname ≡ some c
    → (cname ≡ some c) ⊎ (any (λ r. c ≟ r.content) rs ≡ true)
unfolding any
cname_of-holds [] cname c e = inl e
cname_of-holds (r ∷ rs) cname c e = inr (ground (arith, (≟_iff c r.content).1, e))

own_step-holds_address :
    (name ip : Text) (rr : Rrset) (ips : List Text) (cname : Option Text)
    → elem ip (own_step name rr ips cname).0 ≡ (elem ip ips || holds_address name ip rr)
unfolding own_step
own_step-holds_address name ip rr ips cname = elim (Bool-cases (rr.name ≟ name)) [
  | inl e ↦ rw e (elim (Bool-cases (rr.rtype ≟ codes "A" || rr.rtype ≟ codes "AAAA")) [
    | inl f ↦ rw f (elem-add_contents ip ips rr.records)
    | inr f ↦ rw f (elim (Bool-cases (rr.rtype ≟ codes "CNAME")) [
      | inl g ↦ rw g (ground arith)
      | inr g ↦ rw g (ground arith)
    ])
  ])
  | inr e ↦ rw e (ground arith)
]

own_targets-holds_address :
    (name ip : Text) (rrs : List Rrset) (ips : List Text) (cname : Option Text)
    → elem ip (own_targets name rrs ips cname).0 ≡ (elem ip ips || any (holds_address name ip) rrs)
unfolding own_targets any
own_targets-holds_address name ip [] ips cname = ground arith
own_targets-holds_address name ip (rr ∷ rrs) ips cname =
    let (ips', cname') = own_step name rr ips cname in
    own_targets-holds_address name ip rrs ips' cname'
    ∙ ap (λ b. b || any (holds_address name ip) rrs) (own_step-holds_address name ip rr ips cname)
    ∙ or_assoc (elem ip ips) (holds_address name ip rr) _

own_step-holds_alias :
    (name c : Text) (rr : Rrset) (ips : List Text) (cname : Option Text)
    → (own_step name rr ips cname).1 ≡ some c
    → (cname ≡ some c) ⊎ (holds_alias name c rr ≡ true)
unfolding own_step
own_step-holds_alias name c rr ips cname = elim (Bool-cases (rr.name ≟ name)) [
  | inl e ↦ rw e (elim (Bool-cases (rr.rtype ≟ codes "A" || rr.rtype ≟ codes "AAAA")) [
    | inl f ↦ rw f inl
    | inr f ↦ rw f (elim (Bool-cases (rr.rtype ≟ codes "CNAME")) [
      | inl g ↦ rw g (cname_of-holds rr.records cname c)
      | inr g ↦ rw g inl
    ])
  ])
  | inr e ↦ rw e inl
]

own_targets-holds_alias :
    (name c : Text) (rrs : List Rrset) (ips : List Text) (cname : Option Text)
    → (own_targets name rrs ips cname).1 ≡ some c
    → (cname ≡ some c) ⊎ (any (holds_alias name c) rrs ≡ true)
unfolding own_targets any
own_targets-holds_alias name c [] ips cname h = inl h
own_targets-holds_alias name c (rr ∷ rrs) ips cname h =
    let (ips', cname') = own_step name rr ips cname in
    ground (
      arith,
      own_targets-holds_alias name c rrs ips' cname' h,
      own_step-holds_alias name c rr ips cname,
    )

elem-filter :
    (ip : Text) (p : Text → Bool) (ips : List Text)
    → elem ip (filter p ips) ≡ true
    → elem ip ips ≡ true
unfolding elem filter
elem-filter ip p [] h = h
elem-filter ip p (a ∷ ips) h = elim (Bool-cases (p a)) [
  | inl e ↦ ground (arith, elem-filter ip p ips)
  | inr e ↦ ground (arith, elem-filter ip p ips)
]

elem-public_only :
    {N : Type 0} (net : Network N) (ip : Text) (ips : List Text)
    → elem ip (public_only net ips) ≡ true
    → elem ip ips ≡ true
elem-public_only net ip ips = elim (Bool-cases net.check_allow_private) [
  | inl e ↦ ground (arith, elem-filter ip (λ a. is_public_ip net.address a) ips)
  | inr e ↦ ground (arith, elem-filter ip (λ a. is_public_ip net.address a) ips)
]

or_resolved-Published :
    (resolve : Resolve) (name ip : Text) (rrs : List Rrset) (found : List Text × Option Text)
    → (elem ip found.0 ≡ true → any (holds_address name ip) rrs ≡ true)
    → ((c : Text) → found.1 ≡ some c → any (holds_alias name c) rrs ≡ true)
    → elem ip (or_resolved resolve found) ≡ true
    → Published resolve name rrs ip
unfolding elem
or_resolved-Published resolve name ip rrs (a ∷ ips, cname) own alias h = inl (own h)
or_resolved-Published resolve name ip rrs ([], none) own alias h = cc
or_resolved-Published resolve name ip rrs ([], some []) own alias h = cc
or_resolved-Published resolve name ip rrs ([], some (c ∷ cs)) own alias h =
    inr (c ∷ cs, alias (c ∷ cs) refl, sym (elem-resolve_ips ip resolve (c ∷ cs)) ∙ h)

own_targets-Published :
    (resolve : Resolve) (name ip : Text) (rrs : List Rrset)
    → elem ip (or_resolved resolve (own_targets name rrs [] none)) ≡ true
    → Published resolve name rrs ip
unfolding elem
own_targets-Published resolve name ip rrs =
    or_resolved-Published resolve name ip rrs (own_targets name rrs [] none)
      (λ h. sym (own_targets-holds_address name ip rrs [] none) ∙ h)
      (λ c h. ground (arith, own_targets-holds_alias name c rrs [] none h))

ok_out : {A : Type 0} (x y : A) → ok x ≡ ok y → x ≡ y
ok_out x y e = cc

module _ {S N : Type 0} (api : Api S) (net : Network N) (resolve : Resolve) where
  -- An address that may be probed is published for its host in the zone that the server has.
  pub check_targets-Published :
      (zone host ip : Text) (w : World S) (targets : List Text)
      → (check_targets api net resolve zone host w).0 ≡ ok targets
      → elem ip targets ≡ true
      → (zdata : Zone) × ((Client.get_zone api zone w.server).0 ≡ ok zdata)
        × Published resolve (canonical host) zdata.rrsets ip
  unfolding check_targets elem
  check_targets-Published zone host ip w targets t m =
      go (Client.get_zone api zone w.server).0 (Client.get_zone api zone w.server).1 refl t m
    where
      targets_of : Result Zone → S → Result (List Text)
      targets_of r s =
          let q =
            continue r
              (λ (zdata : Zone). pure (
                public_only net
                  (or_resolved resolve (own_targets (canonical host) zdata.rrsets [] none))))
              (record w { server = s }) in
          (catch_pdns q.0 (λ status message. pure []) q.1).0

      go :
          (r : Result Zone) (s : S)
          → (Client.get_zone api zone w.server).0 ≡ r
          → targets_of r s ≡ ok targets
          → elem ip targets ≡ true
          → (zdata : Zone) × ((Client.get_zone api zone w.server).0 ≡ ok zdata)
            × Published resolve (canonical host) zdata.rrsets ip
      go (ok zdata) s e t m = (
        zdata,
        e,
        own_targets-Published resolve (canonical host) ip zdata.rrsets (
            elem-public_only net ip _
              (subst (λ (l : List Text). elem ip l ≡ true) (sym (ok_out _ targets t)) m)),
      )
      go (err (pdns_error status message)) s e t m = cc
      go (err (http_error status detail)) s e t m = cc
      go (err (value_error token)) s e t m = cc
      go (err crash) s e t m = cc
