-- ===== src/Accounts/Users/Keep.antt =====
-- Deleting accounts never deletes the admin who does it.
use mojodns.Prelude.{
  Option, none, some, ℕ, not, List, [], ◌∷◌, none, some, filter, find, ◌==◌, continue, ◌≡◌, ◌≢◌,
  refl, arith,
}
use mojodns.Db.{User, World, user_by_id, log_history, flash}
use mojodns.Accounts.Users.{user_delete, delete_user, delete_loaded, or_404, load_user}

find-filter_id :
    (uid other : ℕ) (users : List User)
    → other ≢ uid
    → find (λ u. u.id == other) (filter (λ u. not (u.id == uid)) users)
      ≡ find (λ u. u.id == other) users
unfolding find filter
find-filter_id uid other [] h = refl
find-filter_id uid other (u ∷ us) h = ground (arith, h, find-filter_id uid other us h)

module _ {S : Type 0} (admin : User) where
  deleted :
      (uid : ℕ) (target : User) (w : World S)
      → user_by_id (delete_loaded admin uid target w).1.db admin.id ≡ user_by_id w.db admin.id
  unfolding delete_loaded log_history flash user_by_id delete_user
  deleted uid target w = ground (arith, find-filter_id target.id admin.id w.db.users)

  -- Whichever id an admin asks to delete, the admin's own account is what it was.
  pub user_by_id-user_delete :
      (uid : ℕ) (w : World S)
      → user_by_id (user_delete admin uid w).1.db admin.id ≡ user_by_id w.db admin.id
  unfolding user_delete load_user
  user_by_id-user_delete uid w = go (user_by_id w.db uid)
    where
      go :
          (found : Option User)
          → user_by_id
              (continue
                (or_404 {S = S} found w).0
                (delete_loaded admin uid)
                (or_404 {S = S} found w).1).1.db
              admin.id
            ≡ user_by_id w.db admin.id
      go none = refl
      go (some target) = deleted uid target w
