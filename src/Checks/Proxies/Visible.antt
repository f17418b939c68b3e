-- ===== src/Checks/Proxies/Visible.antt =====
-- Who may check from where.
use mojodns.Prelude.{
  ℕ, Bool, refl, ◌∙◌, ◌==◌, any, any-sort_by, true, false, ◌&&◌, ◌||◌, List, [], ◌∷◌, filter, All,
  All-sort_by, IsOrdered, sort_by-IsOrdered, ◌≡◌, Bool-cases, arith, inl, inr, ◌⊎◌,
}
use mojodns.DnsUtil.Rows.{text_lt}
use mojodns.DnsUtil.Order.{text_lt-asym}
use mojodns.Db.{User, Proxy, Db, is_admin}
use mojodns.Checks.Proxies.{visible_proxies, proxy_lt}

abbrev pub Usable : User → Proxy → Type 0
Usable user p = (p.enabled ≡ true) × ((is_admin user ≡ true) ⊎ (p.public_available ≡ true))

All-filter-Usable :
    (user : User) (ps : List Proxy)
    → All (Usable user) (filter (λ p. p.enabled && (is_admin user || p.public_available)) ps)
unfolding filter
All-filter-Usable user [] = tt
All-filter-Usable user (p ∷ ps) =
    elim (Bool-cases (p.enabled && (is_admin user || p.public_available))) [
      | inl e ↦ rw e (ground arith, All-filter-Usable user ps)
      | inr e ↦ rw e (All-filter-Usable user ps)
    ]

proxy_lt-asym : (a b : Proxy) → proxy_lt a b ≡ true → proxy_lt b a ≡ false
unfolding proxy_lt
proxy_lt-asym a b h = ground (arith, text_lt-asym a.name b.name)

-- What a list of locations is in order of: the direct one first, and else no name in front of one that
-- comes before it.
abbrev pub Follows : List Proxy → Type 0
Follows [] = Unit
Follows (a ∷ []) = Unit
Follows (a ∷ b ∷ ps) =
    (((a.is_direct ≡ true) × (b.is_direct ≡ false))
      ⊎ ((a.is_direct ≡ b.is_direct) × (text_lt b.name a.name ≡ false)))
    × Follows (b ∷ ps)

not_lt :
    (a b : Proxy)
    → proxy_lt b a ≡ false
    → ((a.is_direct ≡ true) × (b.is_direct ≡ false))
      ⊎ ((a.is_direct ≡ b.is_direct) × (text_lt b.name a.name ≡ false))
unfolding proxy_lt
not_lt a b h = ground arith

IsOrdered-Follows : (ps : List Proxy) → IsOrdered proxy_lt ps → Follows ps
IsOrdered-Follows [] o = tt
IsOrdered-Follows (a ∷ []) o = tt
IsOrdered-Follows (a ∷ b ∷ ps) o = (not_lt a b o.0, IsOrdered-Follows (b ∷ ps) o.1)

any-filter : (p q : Proxy → Bool) (ps : List Proxy) → any p (filter q ps) ≡ any (λ a. p a && q a) ps
unfolding any filter
any-filter p q [] = refl
any-filter p q (a ∷ ps) = elim (Bool-cases (q a)) [
  | inl e ↦ rw e (ground (arith, any-filter p q ps))
  | inr e ↦ rw e (ground (arith, any-filter p q ps))
]

-- Every check location that a user is offered is enabled, and public unless the user is an admin; the
-- direct ones come first, and the others as the direct ones are in the order of their names. Whichever
-- id is asked for, it is offered just when a location of that id is enabled, and public or the user an
-- admin.
pub visible_proxies-Usable :
    (db : Db) (user : User) (id : ℕ)
    → let visible = visible_proxies db user in
      All (Usable user) visible
      × Follows visible
      × (any (λ p. p.id == id) visible
          ≡ any
              (λ p. p.id == id && (p.enabled && (is_admin user || p.public_available)))
              db.proxies)
unfolding visible_proxies
visible_proxies-Usable db user id = (
  All-sort_by proxy_lt (Usable user) _ (All-filter-Usable user db.proxies),
  IsOrdered-Follows _ (sort_by-IsOrdered proxy_lt proxy_lt-asym _),
  any-sort_by proxy_lt (λ p. p.id == id) _ ∙ any-filter (λ p. p.id == id) _ db.proxies,
)
