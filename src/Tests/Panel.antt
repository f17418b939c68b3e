-- ===== src/Tests/Panel.antt =====
-- Runs of the panel's own tables and rules.
use mojodns.Prelude.{
  ℕ, true, false, [], ◌∷◌, ◌++◌, none, some, ◌≡◌, ◌≢◌, ◌⊎◌, ◌↔◌, refl, arith, any, elem, ◌≟◌,
  list_beq, length, ◌≤◌, ◌<◌,
}
use mojodns.Text.{Text, codes, pos, starts_with}
use mojodns.Db.{user_by_id}
use mojodns.Access.{current_user}
use mojodns.Access.Admit.{Admitted, current_user-Admitted}
use mojodns.Access.Grants.{zone_access_toggle}
use mojodns.Access.Grants.Owners.{owners, Distinct, owners-zone_access_toggle}
use mojodns.Api.Tokens.{lookup_token}
use mojodns.Api.Tokens.Owner.{Justified, lookup_token-Justified}
use mojodns.Accounts.{login}
use mojodns.Accounts.SignIn.{SignedIn, login-SignedIn}
use mojodns.Accounts.Users.{user_delete}
use mojodns.Accounts.Users.Keep.{user_by_id-user_delete}
use mojodns.Csrf.{HttpRequest, rejected, raised, is_exempt, csrf_middleware}
use mojodns.Csrf.Guard.{Presents, Uncomparable, csrf_middleware_guarded}
use mojodns.RateLimit.{hits_of, allow, recent}
use mojodns.RateLimit.Window.{accepted, allow_lem, accepted-bounds}
use mojodns.Verify.{CheckResult, classify, store_results}
use mojodns.Verify.Status.{check_of, last_result, check_of-store_results}
use mojodns.Verify.Status.Verdict.{HasFailed, Meet, SameMembers, classify_lem}
use mojodns.Tests.{demo, demo_db, demo_settings, plain, owner, root, grants}

current_user-Admitted_example :
    Admitted demo_settings
      (codes "/zones")
      demo
      (current_user demo_settings (codes "/zones") demo).0
current_user-Admitted_example = current_user-Admitted demo_settings (codes "/zones") demo

lookup_token-Justified_example :
    Justified (λ t. t) demo_db 100 (codes "t") (lookup_token (λ t. t) demo_db 100 (codes "t"))
lookup_token-Justified_example = lookup_token-Justified (λ t. t) demo_db 100 (codes "t")

login-SignedIn_example :
    SignedIn plain
      (codes "o")
      (codes "p")
      demo
      (login plain demo_settings 3 (codes "ip") (codes "o") (codes "p") ([], demo)).1.1
login-SignedIn_example =
    login-SignedIn plain demo_settings 3 (codes "ip") (codes "o") (codes "p") [] demo

user_by_id-user_delete_example : user_by_id (user_delete root 2 demo).1.db 1 ≡ user_by_id demo_db 1
user_by_id-user_delete_example = user_by_id-user_delete root 2 demo

Distinct-grants : Distinct grants
Distinct-grants = (((λ h. omega (arith, h)), tt), (tt, tt))

owners-zone_access_toggle_example :
    owners (zone_access_toggle (codes "a.b.") owner 3 demo).1.db.access ≡ owners grants
owners-zone_access_toggle_example =
    owners-zone_access_toggle (codes "a.b.") owner 3 demo Distinct-grants

abbrev form_post : HttpRequest
form_post = record {
  is_http = true;
  method = codes "POST";
  path = codes "/zones";
  headers = [];
  chunks = codes "x" ∷ [];
}

abbrev count_calls : HttpRequest → ℕ → ℕ × ℕ
count_calls r n = (n, ℕ.suc n)

csrf_middleware_guarded_example :
    (csrf_middleware count_calls (some (codes "tok")) form_post 0 ≡ (rejected, 0))
    ⊎ ((csrf_middleware count_calls (some (codes "tok")) form_post 0 ≡ (raised, 0))
        × Uncomparable (some (codes "tok")) form_post)
    ⊎ Presents (some (codes "tok")) form_post
unfolding is_exempt elem any starts_with ◌≟◌ list_beq
csrf_middleware_guarded_example =
    csrf_middleware_guarded count_calls (some (codes "tok")) form_post 0 refl refl

accepted-bounds_example :
    length (recent 70 (accepted (codes "k") (pos 2) (1 ∷ 5 ∷ 9 ∷ 64 ∷ []) [])) ≤ 2
accepted-bounds_example =
    accepted-bounds (codes "k") 1 70 (1 ∷ 5 ∷ 9 ∷ 64 ∷ [])
      (omega arith, (omega arith, (omega arith, (omega arith, tt)))) (omega arith)

abbrev good : CheckResult
good = record {
  zone = codes "a.b.";
  status = codes "ok";
  configured = codes "n." ∷ [];
  resolved = codes "n." ∷ [];
  detail = none;
  dnssec = none;
}

check_of-store_results_example :
    check_of (codes "a.b.") (store_results 7 (good ∷ []) demo_db).checks
    ≡ last_result 7 (codes "a.b.") (good ∷ []) (check_of (codes "a.b.") [])
check_of-store_results_example = check_of-store_results 7 (codes "a.b.") (good ∷ []) demo_db

classify_lem_example :
    let status = classify (codes "n." ∷ []) (codes "m." ∷ []) none in
    ((status ≡ codes "error") ↔ HasFailed none)
    × ((status ≡ codes "mismatch")
        ↔ ((¬ HasFailed none) × (¬ Meet (codes "n." ∷ []) (codes "m." ∷ []))))
    × ((status ≡ codes "ok") ↔ (
        (¬ HasFailed none)
        × Meet (codes "n." ∷ []) (codes "m." ∷ [])
        × SameMembers (codes "n." ∷ []) (codes "m." ∷ [])))
    × ((status ≡ codes "partial") ↔ (
        (¬ HasFailed none)
        × Meet (codes "n." ∷ []) (codes "m." ∷ [])
        × (¬ SameMembers (codes "n." ∷ []) (codes "m." ∷ []))))
classify_lem_example = classify_lem (codes "n." ∷ []) (codes "m." ∷ []) none

allow_lem_example :
    let hits = recent 70 (hits_of [] (codes "k")) in
    let (r, after) = allow (codes "k") (pos 2) 70 [] in
    (((r.0 ≡ true) × (length hits < 2) × (hits_of after (codes "k") ≡ hits ++ 70 ∷ []))
      ⊎ ((r.0 ≡ false) × (2 ≤ length hits) × (hits_of after (codes "k") ≡ hits)))
    × ((other : Text) → other ≢ codes "k" → hits_of after other ≡ hits_of [] other)
allow_lem_example = allow_lem (codes "k") 1 70 []
