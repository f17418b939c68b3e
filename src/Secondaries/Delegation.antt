-- ===== src/Secondaries/Delegation.antt =====
-- app/mojodns/slaves.py: the delegation of a zone at its parent. A set is a sorted list of its members.
use mojodns.Prelude.{
  true, false, not, List, [], ◌∷◌, ◌++◌, Option, none, some, map, filter, elem, if◌then◌else◌,
}
use mojodns.Text.{Text, codes, join, split, rstrip_char}
use mojodns.Pdns.{canonical}
use mojodns.Pdns.Update.{same_set}
use mojodns.Verify.{sorted}
use mojodns.Secondaries.{
  Dns, AnswerSet, soa_set, ns_set, rrsig_set, other_set, Exchange, replied, timed_out, query_failed,
  a_records,
}

abbrev above : List Text → Option Text
above [] = none
above (l ∷ []) = none
above (l ∷ m ∷ ms) = some (canonical (join (b'.' ∷ []) (m ∷ ms)))

unfoldable pub parent_zone : Text → Option Text
parent_zone zone = above (split b'.' (rstrip_char b'.' (canonical zone)))

unfoldable pub ns_targets : List AnswerSet → List Text
ns_targets [] = []
ns_targets (ns_set targets ∷ sets) = map canonical targets ++ ns_targets sets
ns_targets (soa_set serial ∷ sets) = ns_targets sets
ns_targets (rrsig_set sigs ∷ sets) = ns_targets sets
ns_targets (other_set ∷ sets) = ns_targets sets

-- Any exception goes on to the next protocol.
abbrev found_or : Exchange → List Text → List Text
found_or (replied r) next = sorted (ns_targets (r.answer ++ r.authority))
found_or timed_out next = next
found_or (query_failed e) next = next

pub record DelegationReport : Type 0 where
  pub status : Text
  pub parent : Option Text
  pub parent_ns : List Text
  pub zone_ns : List Text
  pub only_parent : List Text
  pub only_zone : List Text
  pub detail : Text

abbrev unknown : Option Text → List Text → Text → DelegationReport
unknown parent zset detail = record {
  status = codes "unknown";
  parent = parent;
  parent_ns = [];
  zone_ns = zset;
  only_parent = [];
  only_zone = [];
  detail = detail;
}

-- `xs - ys`
unfoldable pub minus : List Text → List Text → List Text
minus xs ys = filter (λ x. not (elem x ys)) xs

-- The end of `check_delegation`: the name servers that the parent names, if any were found.
unfoldable pub compare_ns : Text → List Text → List Text → DelegationReport
compare_ns parent zset [] =
    unknown (some parent) zset
      (join [] (codes "no delegation for this zone found in parent '" ∷ parent ∷ codes "'" ∷ []))
compare_ns parent zset (d ∷ ds) = record {
  status = if same_set (d ∷ ds) zset then codes "ok" else codes "mismatch";
  parent = some parent;
  parent_ns = d ∷ ds;
  zone_ns = zset;
  only_parent = minus (d ∷ ds) zset;
  only_zone = minus zset (d ∷ ds);
  detail = [];
}

module _ (dns : Dns) where
  unfoldable pub ns_at_server : Text → Text → List Text
  ns_at_server ip zone =
      let name = canonical zone in
      found_or (dns.query false (codes "NS") ip name)
        (found_or (dns.query true (codes "NS") ip name) [])

  abbrev or_next : List Text → List Text → List Text
  or_next [] next = next
  or_next (n ∷ ns) next = n ∷ ns

  -- The loop over the addresses of one parent name server.
  unfoldable pub ask_addresses : Text → List Text → List Text
  ask_addresses zone [] = []
  ask_addresses zone (ip ∷ ips) =
      let next = ask_addresses zone ips in
      if not (dns.addr_ok ip) then next else or_next (ns_at_server ip zone) next

  unfoldable pub ask_parents : Text → List Text → List Text
  ask_parents zone [] = []
  ask_parents zone (name ∷ names) =
      or_next (ask_addresses zone (a_records dns name)) (ask_parents zone names)

  abbrev pub from_parents : Text → Text → List Text → Option (List Text) → DelegationReport
  from_parents zone parent zset none =
      unknown (some parent) zset
        (join [] (codes "parent zone '" ∷ parent ∷ codes "' is not publicly resolvable" ∷ []))
  from_parents zone parent zset (some parent_ns) =
      compare_ns parent zset (ask_parents zone parent_ns)

  abbrev pub from_parent : Text → List Text → Option Text → DelegationReport
  from_parent zone zset none = unknown none zset (codes "zone has no parent")
  from_parent zone zset (some parent) =
      from_parents zone (rstrip_char b'.' parent) zset (dns.resolve parent (codes "NS"))

  unfoldable pub check_delegation : Text → List Text → DelegationReport
  check_delegation zone zone_ns =
      from_parent (canonical zone) (sorted (map canonical zone_ns)) (parent_zone (canonical zone))
