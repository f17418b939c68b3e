-- ===== src/Zones/Contents.antt =====
-- The list surgery of the record handlers: what becomes of the records of one rrset.
use mojodns.Prelude.{
  Bool, true, false, not, List, [], ◌∷◌, ◌++◌, filter, any, ◌≟◌, ≟_iff, ≟_refl, if◌then◌else◌, ◌≡◌,
  ◌≢◌, refl, arith, any-append,
}
use mojodns.Text.{Text}
use mojodns.Pdns.Types.{Rec}

-- `any(r["content"] == content for r in records)`
unfoldable pub has_content : Text → List Rec → Bool
has_content content records = any (λ r. r.content ≟ content) records

-- `if not any(…): records.append({"content": content, "disabled": False})`
unfoldable pub add_content : Text → List Rec → List Rec
add_content content records =
    if has_content content records
    then records
    else records ++ record { content = content; disabled = false } ∷ []

-- `[r for r in records if r["content"] != content]`
unfoldable pub drop_content : Text → List Rec → List Rec
drop_content content records = filter (λ r. not (r.content ≟ content)) records

pub has_content-add_content :
    (content : Text) (rs : List Rec) → has_content content (add_content content rs) ≡ true
unfolding add_content has_content any
has_content-add_content content rs = ground (
  arith,
  any-append (λ r. r.content ≟ content) rs (record { content = content; disabled = false } ∷ []),
  ≟_refl content,
)

pub has_content-drop_content :
    (content : Text) (rs : List Rec) → has_content content (drop_content content rs) ≡ false
unfolding drop_content has_content any filter
has_content-drop_content content [] = refl
has_content-drop_content content (r ∷ rs) = ground (arith, has_content-drop_content content rs)

pub has_content-drop_content_ne :
    (content other : Text) (rs : List Rec)
    → other ≢ content
    → has_content other (drop_content content rs) ≡ has_content other rs
unfolding drop_content has_content any filter
has_content-drop_content_ne content other [] h = refl
has_content-drop_content_ne content other (r ∷ rs) h = ground (
  arith,
  h,
  ≟_iff r.content content,
  ≟_iff r.content other,
  has_content-drop_content_ne content other rs h,
)

pub has_content-add_content_ne :
    (content other : Text) (rs : List Rec)
    → content ≢ other
    → has_content other (add_content content rs) ≡ has_content other rs
unfolding add_content has_content any
has_content-add_content_ne content other rs h = ground (
  arith,
  h,
  ≟_iff content other,
  any-append (λ r. r.content ≟ other) rs (record { content = content; disabled = false } ∷ []),
)
