-- ===== src/Order/Request/Bounds.antt =====
-- What a request that passes the checks of services/order-service/src/main.ts satisfies.
use kuajing.Base.{
  ℕ, ◌≤◌, ◌≡◌, ◌≢◌, refl, ap, subst, suc, true, false, not, Option, none, some, List, [], ◌∷◌, map,
  ◌==◌, length, arith, inl, inr, Bool-cases, All,
}
use kuajing.Base.Text.{Text, text_eq, text_eq_iff, trimmed, is_blank}
use kuajing.Base.Failure.{ok, ok-injective, bind_ok, throw_if_passed}
use kuajing.Inventory.Normalize.{invalid}
use kuajing.Order.Request.{
  BrowserLine, BrowserAddress, CheckoutRequest, RequestedLine, Address, NormalizedRequest, is_email,
  normalize_email, normalize_address_field, normalize_shipping_address, normalize_line,
  normalize_lines, member, as_set, slug_of, normalize_checkout_request,
}

-- No slug stands twice.
abbrev pub IsDistinct : List RequestedLine → Type 0
IsDistinct [] = Unit
IsDistinct (l ∷ ls) = All (λ (m : RequestedLine). l.slug ≢ m.slug) ls × IsDistinct ls

abbrev pub IsRequested : RequestedLine → Type 0
IsRequested l = (1 ≤ l.quantity) × (l.quantity ≤ 99) × (is_blank l.slug ≡ false)

-- A text with something in it, of at most so many code units.
abbrev pub IsWithin : ℕ → Text → Type 0
IsWithin n t = (length t ≤ n) × (is_blank t ≡ false)

abbrev pub IsAddress : Address → Type 0
IsAddress a =
    IsWithin 120 a.country
    × IsWithin 120 a.province
    × IsWithin 120 a.city
    × IsWithin 40 a.postal_code
    × IsWithin 240 a.street

abbrev pub IsValid : NormalizedRequest → Type 0
IsValid r =
    (1 ≤ length r.lines)
    × All IsRequested r.lines
    × IsDistinct r.lines
    × (is_email r.customer_email ≡ true)
    × IsAddress r.shipping_address

length-as_set : (ts : List Text) → length (as_set ts) ≤ length ts
length-as_set [] = omega arith
length-as_set (t ∷ ts) = ground (arith, length-as_set ts)

member-as_set : (t : Text) (ts : List Text) → member t ts ≡ true → member t (as_set ts) ≡ true
member-as_set t [] h = cc
member-as_set t (s ∷ ts) h = elim (Bool-cases (member s (as_set ts))) [
  | inl e ↦ rw e (elim (Bool-cases (text_eq t s)) [
    | inl f ↦ rw ((text_eq_iff t s).0 f) e
    | inr f ↦ member-as_set t ts (ground arith)
  ])
  | inr e ↦ rw e (ground (arith, member-as_set t ts))
]

absent :
    (l : RequestedLine) (ls : List RequestedLine)
    → member l.slug (map slug_of ls) ≡ false
    → All (λ (m : RequestedLine). l.slug ≢ m.slug) ls
absent l [] h = tt
absent l (m ∷ ls) h = (λ e. ground (arith, text_eq_iff l.slug m.slug), absent l ls (ground arith))

length-slugs : (ls : List RequestedLine) → length (map slug_of ls) ≡ length ls
length-slugs [] = refl
length-slugs (l ∷ ls) = ap suc (length-slugs ls)

-- A slug that stands twice makes the set smaller.
in_set :
    (l : RequestedLine) (ls : List RequestedLine)
    → length (as_set (map slug_of (l ∷ ls))) ≡ length (l ∷ ls)
    → member l.slug (as_set (map slug_of ls)) ≡ false
in_set l ls h = ground (arith, length-as_set (map slug_of ls), length-slugs ls)

distinct : (ls : List RequestedLine) → length (as_set (map slug_of ls)) ≡ length ls → IsDistinct ls
distinct [] h = tt
distinct (l ∷ ls) h = (
  absent l ls (ground (arith, in_set l ls h, member-as_set l.slug (map slug_of ls))),
  distinct ls (ground (arith, in_set l ls h)),
)

normalize_line-IsRequested :
    (line : BrowserLine) {l : RequestedLine} → normalize_line line ≡ ok l → IsRequested l
unfolding normalize_line trimmed
normalize_line-IsRequested line {l} h = ground arith

normalize_lines-IsRequested :
    (lines : List BrowserLine) {ls : List RequestedLine}
    → normalize_lines lines ≡ ok ls
    → All IsRequested ls
unfolding normalize_lines
normalize_lines-IsRequested [] h = subst (All IsRequested) (ok-injective h) tt
normalize_lines-IsRequested (line ∷ lines) h =
    let (first, e, h') = bind_ok (normalize_line line) _ h in
    let (others, f, h'') = bind_ok (normalize_lines lines) _ h' in
    subst (All IsRequested) (ok-injective h'')
      (normalize_line-IsRequested line e, normalize_lines-IsRequested lines f)

normalize_email_lem :
    (lower : Text → Text) (value : Option Text) {t : Text}
    → normalize_email lower value ≡ ok t
    → is_email t ≡ true
unfolding normalize_email
normalize_email_lem lower none h = cc
normalize_email_lem lower (some v) h = ground arith

normalize_address_field-IsWithin :
    (n : ℕ) (value : Option Text) {t : Text} → normalize_address_field n value ≡ ok t → IsWithin n t
unfolding normalize_address_field
normalize_address_field-IsWithin n none h = ground arith
normalize_address_field-IsWithin n (some v) h = ground arith

normalize_shipping_address-IsAddress :
    (value : BrowserAddress) {a : Address} → normalize_shipping_address value ≡ ok a → IsAddress a
unfolding normalize_shipping_address
normalize_shipping_address-IsAddress value h =
    let (country, e1, h1) = bind_ok (normalize_address_field 120 value.country) _ h in
    let (province, e2, h2) = bind_ok (normalize_address_field 120 value.province) _ h1 in
    let (city, e3, h3) = bind_ok (normalize_address_field 120 value.city) _ h2 in
    let (postal_code, e4, h4) = bind_ok (normalize_address_field 40 value.postal_code) _ h3 in
    let (street, e5, h5) = bind_ok (normalize_address_field 240 value.street) _ h4 in
    subst IsAddress (ok-injective h5) (
      normalize_address_field-IsWithin 120 value.country e1,
      normalize_address_field-IsWithin 120 value.province e2,
      normalize_address_field-IsWithin 120 value.city e3,
      normalize_address_field-IsWithin 40 value.postal_code e4,
      normalize_address_field-IsWithin 240 value.street e5,
    )

-- A checkout request that passes its checks has at least one line; each line names a product and a
-- quantity from 1 to 99, and no product stands on two lines. It has an e-mail address of the
-- expected form, and every field of the shipping address is filled in and within its bound.
pub normalize_checkout_request-IsValid :
    (lower : Text → Text) (body : CheckoutRequest) {r : NormalizedRequest}
    → normalize_checkout_request lower body ≡ ok r
    → IsValid r
unfolding normalize_checkout_request
normalize_checkout_request-IsValid lower body h =
    let (lines, e1, h1) = bind_ok (normalize_lines body.lines) _ h in
    let (some_line, h2) = throw_if_passed (length lines == 0) invalid _ h1 in
    let (no_double, h3) =
      throw_if_passed (not (length (as_set (map slug_of lines)) == length lines)) invalid _ h2 in
    let (email, e4, h4) = bind_ok (normalize_email lower body.customer_email) _ h3 in
    let (address, e5, h5) = bind_ok (normalize_shipping_address body.shipping_address) _ h4 in
    subst IsValid (ok-injective h5) (
      ground arith,
      normalize_lines-IsRequested body.lines e1,
      distinct lines (ground arith),
      normalize_email_lem lower body.customer_email e4,
      normalize_shipping_address-IsAddress body.shipping_address e5,
    )
