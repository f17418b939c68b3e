-- ===== src/Access/Grants/Owners.antt =====
-- Toggling access never touches ownership, and only an owner or an admin can do it.
use mojodns.Prelude.{
  ℕ, Bool, false, List, [], ◌∷◌, Option, none, some, filter, All, ◌≡◌, ◌≢◌, refl, ◌∙◌, arith,
  filter-append, append-nil,
}
use mojodns.Text.{Text}
use mojodns.Db.{User, ZoneAccess, Db, World, user_by_id, log_history, flash}
use mojodns.Access.Grants.{
  is_grant, delete_grant, add_grant, toggle, toggle_target, zone_access_toggle,
}

-- The rows that say who owns a zone.
unfoldable pub owners : List ZoneAccess → List ZoneAccess
owners rows = filter (λ a. a.is_owner) rows

-- The primary key: no two rows have one id.
abbrev pub Distinct : List ZoneAccess → Type 0
Distinct [] = Unit
Distinct (a ∷ rows) = All (λ b. b.id ≢ a.id) rows × Distinct rows

-- The first row that a filter finds is one of the rows.
found_id :
    (p : ZoneAccess → Bool) (rows : List ZoneAccess) (g : ZoneAccess) (rest : List ZoneAccess)
    (k : ℕ)
    → All (λ b. b.id ≢ k) rows
    → filter p rows ≡ g ∷ rest
    → g.id ≢ k
unfolding filter
found_id p [] g rest k h e = cc
found_id p (a ∷ rows) g rest k h e = ground (arith, h.0, found_id p rows g rest k h.1)

-- Deleting an id that no row has changes nothing.
delete_grant_id :
    (id : ℕ) (rows : List ZoneAccess) → All (λ b. b.id ≢ id) rows → delete_grant id rows ≡ rows
unfolding delete_grant filter
delete_grant_id id [] h = refl
delete_grant_id id (a ∷ rows) h = ground (arith, delete_grant_id id rows h.1)

owners-delete_grant :
    (p : ZoneAccess → Bool) (rows : List ZoneAccess) (g : ZoneAccess) (rest : List ZoneAccess)
    → Distinct rows
    → filter p rows ≡ g ∷ rest
    → g.is_owner ≡ false
    → owners (delete_grant g.id rows) ≡ owners rows
unfolding owners delete_grant filter
owners-delete_grant p [] g rest d e h = cc
owners-delete_grant p (a ∷ rows) g rest d e h = ground (
  arith,
  owners-delete_grant p rows g rest d.1,
  found_id p rows g rest a.id d.0,
  delete_grant_id a.id rows d.0,
)

owners-add_grant :
    (zone : Text) (uid : ℕ) (db : Db)
    → owners (add_grant zone uid false db).access ≡ owners db.access
unfolding owners add_grant filter
owners-add_grant zone uid db = filter-append (λ a. a.is_owner) db.access _ ∙ append-nil _

module _ {S : Type 0} (zone : Text) (user : User) where
  owners-toggle :
      (target : User) (w : World S) (rows : List ZoneAccess)
      → Distinct w.db.access
      → filter (is_grant zone target.id) w.db.access ≡ rows
      → owners (toggle zone user target rows w).1.db.access ≡ owners w.db.access
  unfolding toggle log_history flash
  owners-toggle target w [] d e = owners-add_grant zone target.id w.db
  owners-toggle target w (g ∷ []) d e =
      ground (arith, owners-delete_grant (is_grant zone target.id) w.db.access g [] d e)
  owners-toggle target w (g ∷ h ∷ gs) d e = refl

  owners-toggle_target :
      (found : Option User) (w : World S)
      → Distinct w.db.access
      → owners (toggle_target zone user found w).1.db.access ≡ owners w.db.access
  unfolding toggle_target
  owners-toggle_target none w d = refl
  owners-toggle_target (some target) w d = owners-toggle target w _ d refl

  -- Whoever toggles the access of whomever, the rows that say who owns which zone stay the same: no
  -- owner is added or lost. The ids of the rows are taken to be distinct, as a primary key is.
  pub owners-zone_access_toggle :
      (uid : ℕ) (w : World S)
      → Distinct w.db.access
      → owners (zone_access_toggle zone user uid w).1.db.access ≡ owners w.db.access
  unfolding zone_access_toggle flash
  owners-zone_access_toggle uid w d = ground (arith, owners-toggle_target (user_by_id w.db uid) w d)
