-- ===== src/RateLimit/Window.antt =====
-- What the limiter lets through.
use mojodns.Prelude.{
  ℕ, suc, ◌-◌, ◌≤◌, ◌<◌, Bool, true, false, List, [], ◌∷◌, ◌++◌, filter, length, ltb, if◌then◌else◌,
  ≟_iff, ≟_refl, ◌≡◌, ◌≢◌, ◌⊎◌, inl, inr, refl, sym, ap, ◌∙◌, arith, filter-append, length-append,
  length-filter-le, append-nil, append_assoc, subst,
}
use mojodns.Text.{Text, ℤ, pos}
use mojodns.RateLimit.{Hits, window, hits_of, set_hits, recent, allow}

hits_of-set_hits :
    (table : Hits) (key : Text) (hits : List ℕ) → hits_of (set_hits table key hits) key ≡ hits
unfolding hits_of set_hits
hits_of-set_hits [] key hits = rw (≟_refl key) refl
hits_of-set_hits (e ∷ es) key hits = ground (arith, ≟_refl key, hits_of-set_hits es key hits)

hits_of-set_hits_ne :
    (table : Hits) (key other : Text) (hits : List ℕ)
    → other ≢ key
    → hits_of (set_hits table key hits) other ≡ hits_of table other
unfolding hits_of set_hits
hits_of-set_hits_ne [] key other hits h = ground (arith, h, ≟_iff key other)
hits_of-set_hits_ne (e ∷ es) key other hits h =
    ground (arith, h, ≟_iff e.0 key, ≟_iff e.0 other, hits_of-set_hits_ne es key other hits h)

-- With a limit above 0, an attempt is allowed just when fewer attempts than the limit were counted in
-- the window, and then it is counted; an attempt that is refused is not counted. Other keys keep
-- their hits.
pub allow_lem :
    (key : Text) (n now : ℕ) (table : Hits)
    → let hits = recent now (hits_of table key) in
      let (r, after) = allow key (pos (suc n)) now table in
      (((r.0 ≡ true) × (length hits < suc n) × (hits_of after key ≡ hits ++ now ∷ []))
        ⊎ ((r.0 ≡ false) × (suc n ≤ length hits) × (hits_of after key ≡ hits)))
      × ((other : Text) → other ≢ key → hits_of after other ≡ hits_of table other)
unfolding allow
allow_lem key n now table =
    let hits = recent now (hits_of table key) in
    (
      ground
          (arith, hits_of-set_hits table key hits, hits_of-set_hits table key (hits ++ now ∷ [])),
      λ other h. ground (
        arith,
        hits_of-set_hits_ne table key other hits h,
        hits_of-set_hits_ne table key other (hits ++ now ∷ []) h,
      ),
    )

-- Aging: what is recent at a later time is recent among what was recent before.
recent-recent :
    (before now : ℕ) (hits : List ℕ)
    → before ≤ now
    → recent now (recent before hits) ≡ recent now hits
unfolding recent filter
recent-recent before now [] h = refl
recent-recent before now (t ∷ ts) h = ground (arith, recent-recent before now ts h)

recent-append : (now : ℕ) (xs ys : List ℕ) → recent now (xs ++ ys) ≡ recent now xs ++ recent now ys
unfolding recent
recent-append now xs ys = filter-append (λ t. ltb (now - t) window) xs ys

length-recent : (now : ℕ) (hits : List ℕ) → length (recent now hits) ≤ length hits
unfolding recent
length-recent now hits = length-filter-le _ hits

-- The times of a sequence of attempts under one key that are allowed, in order.
unfoldable pub accepted : Text → ℤ → List ℕ → Hits → List ℕ
accepted key limit [] table = []
accepted key limit (t ∷ ts) table =
    let (r, after) = allow key limit t table in
    let rest = accepted key limit ts after in if r.0 then t ∷ rest else rest

-- The limiter's hits tell as much as the attempts that were allowed in the past, none later than
-- `last`, and those within the window are no more than the limit.
abbrev Tracks : Text → ℕ → Hits → List ℕ → ℕ → Type 0
Tracks key n table past last =
    ((now : ℕ) → last ≤ now → recent now (hits_of table key) ≡ recent now past)
    × (length (recent last past) ≤ suc n)

-- Each attempt is made no earlier than the one before.
abbrev pub InOrder : ℕ → List ℕ → Type 0
InOrder last [] = Unit
InOrder last (t ∷ ts) = (last ≤ t) × InOrder t ts

abbrev pub latest : ℕ → List ℕ → ℕ
latest last [] = last
latest last (t ∷ ts) = latest t ts

Tracks-refused :
    (key : Text) (n : ℕ) (table after : Hits) (past : List ℕ) (last t : ℕ)
    → Tracks key n table past last
    → last ≤ t
    → hits_of after key ≡ recent t (hits_of table key)
    → Tracks key n after past t
Tracks-refused key n table after past last t tracks le e = (
  (λ now h.
      ap (recent now) e
      ∙ recent-recent t now (hits_of table key) h
      ∙ tracks.0 now (omega (arith, le, h))),
  omega (
    arith,
    ap length (recent-recent last t past le),
    length-recent t (recent last past),
    tracks.1,
  ),
)

Tracks-allowed :
    (key : Text) (n : ℕ) (table after : Hits) (past : List ℕ) (last t : ℕ)
    → Tracks key n table past last
    → last ≤ t
    → length (recent t (hits_of table key)) < suc n
    → hits_of after key ≡ recent t (hits_of table key) ++ t ∷ []
    → Tracks key n after (past ++ t ∷ []) t
Tracks-allowed key n table after past last t tracks le few e =
    let old = hits_of table key in
    (
      (λ now h.
          ap (recent now) e
          ∙ recent-append now (recent t old) (t ∷ [])
          ∙ ap (λ (xs : List ℕ). xs ++ recent now (t ∷ []))
              (recent-recent t now old h ∙ tracks.0 now (omega (arith, le, h)))
          ∙ sym (recent-append now past (t ∷ []))),
      omega (
        arith,
        few,
        ap length (recent-append t past (t ∷ [])),
        length-append (recent t past) (recent t (t ∷ [])),
        length-recent t (t ∷ []),
        ap length (tracks.0 t le),
      ),
    )

accepted-Tracks :
    (key : Text) (n now : ℕ) (times : List ℕ) (table : Hits) (past : List ℕ) (last : ℕ)
    → Tracks key n table past last
    → InOrder last times
    → latest last times ≤ now
    → length (recent now (past ++ accepted key (pos (suc n)) times table)) ≤ suc n
unfolding accepted
accepted-Tracks key n now [] table past last tracks order le = omega (
  arith,
  ap (λ (xs : List ℕ). length (recent now xs)) (append-nil past),
  ap length (recent-recent last now past le),
  length-recent now (recent last past),
  tracks.1,
)
accepted-Tracks key n now (t ∷ ts) table past last tracks order le =
    go (allow key (pos (suc n)) t table) (allow_lem key n t table).0
      (λ after past' h. accepted-Tracks key n now ts after past' t h order.1 le)
  where
    go :
        (x : (Bool × ℕ) × Hits)
        → ((x.0.0 ≡ true)
            × (length (recent t (hits_of table key)) < suc n)
            × (hits_of x.1 key ≡ recent t (hits_of table key) ++ t ∷ []))
          ⊎ ((x.0.0 ≡ false)
              × (suc n ≤ length (recent t (hits_of table key)))
              × (hits_of x.1 key ≡ recent t (hits_of table key)))
        → ((after : Hits) (past' : List ℕ)
            → Tracks key n after past' t
            → length (recent now (past' ++ accepted key (pos (suc n)) ts after)) ≤ suc n)
        → let rest = accepted key (pos (suc n)) ts x.1 in
          length (recent now (past ++ (if x.0.0 then t ∷ rest else rest))) ≤ suc n
    go x (inl (allowed, few, e)) later =
        let rest = accepted key (pos (suc n)) ts x.1 in
        rw allowed (
          subst (λ (xs : List ℕ). length (recent now xs) ≤ suc n) (append_assoc past (t ∷ []) rest)
            (later x.1 (past ++ t ∷ [])
              (Tracks-allowed key n table x.1 past last t tracks order.0 few e)))
    go x (inr (refused, many, e)) later =
        rw refused (later x.1 past (Tracks-refused key n table x.1 past last t tracks order.0 e))

-- However many attempts are made under one key, starting with an empty table: of those that are
-- allowed, no more than the limit fall into the window before any moment that no attempt is later
-- than.
pub accepted-bounds :
    (key : Text) (n now : ℕ) (times : List ℕ)
    → InOrder 0 times
    → latest 0 times ≤ now
    → length (recent now (accepted key (pos (suc n)) times [])) ≤ suc n
unfolding hits_of recent filter
accepted-bounds key n now times order le =
    accepted-Tracks key n now times [] [] 0 ((λ t h. refl), omega arith) order le
