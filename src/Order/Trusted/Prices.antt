-- ===== src/Order/Trusted/Prices.antt =====
-- What the catalog says of a checkout that is accepted, and the browser does not
-- (services/order-service/src/trusted-checkout.ts, services/order-service/src/main.ts).
use kuajing.Base.{
  ℕ, ◌≡◌, refl, ap, subst, true, false, ◌||◌, not, Option, none, some, List, [], ◌∷◌, ltb, ◌==◌,
  arith, All,
}
use kuajing.Base.Int.{pos, negsuc, JsNumber, integer, not_integer}
use kuajing.Base.Text.{Text, codes, text_eq_iff, trimmed}
use kuajing.Base.Failure.{
  http, dependency_unavailable, ok, err, ok-injective, bind_ok, throw_if_passed,
}
use kuajing.Inventory.Normalize.{invalid}
use kuajing.Order.Request.{
  CheckoutRequest, RequestedLine, NormalizedRequest, normalize_checkout_request,
}
use kuajing.Order.Request.Bounds.{IsValid, normalize_checkout_request-IsValid}
use kuajing.Order.Checkout.{Line}
use kuajing.Order.Trusted.{
  Product, CatalogAnswer, unreachable, missing, rejected, found, required_text, is_text,
  is_country_code, positive, non_negative, Checkout, has_other_currency, first_currency,
  ProductTexts, read_texts, finish_line, trusted_checkout_line, resolve_line, resolve_lines,
  resolve_trusted_checkout,
}

required_text_lem :
    (value : Option Text) {t : Text} → required_text value ≡ ok t → trimmed value ≡ some t
unfolding required_text
required_text_lem value h = ground arith

non_negative_lem : (n : JsNumber) {m : ℕ} → non_negative n ≡ ok m → n ≡ integer (pos m)
unfolding non_negative
non_negative_lem not_integer h = cc
non_negative_lem (integer (negsuc n)) h = cc
non_negative_lem (integer (pos n)) h = ap (λ k. integer (pos k)) (ok-injective h)

is_text_lem : (t : Text) (o : Option Text) → is_text t o ≡ true → o ≡ some t
is_text_lem t none h = cc
is_text_lem t (some s) h = ap some ((text_eq_iff s t).0 h)

its_currency :
    (p : Product) {texts : ProductTexts}
    → read_texts p ≡ ok texts
    → trimmed p.currency ≡ some texts.currency
unfolding read_texts
its_currency p h =
    let (title, _, h1) = bind_ok (required_text p.name) _ h in
    let (hs_code, _, h2) = bind_ok (required_text p.hs_code) _ h1 in
    let (material, _, h3) = bind_ok (required_text p.material) _ h2 in
    let (customs, _, h4) = bind_ok (required_text p.customs_declaration) _ h3 in
    let (origin, _, h5) = bind_ok (required_text p.origin_country) _ h4 in
    let (currency, e, h6) = bind_ok (required_text p.currency) _ h5 in
    subst (λ (t : ProductTexts). trimmed p.currency ≡ some t.currency) (ok-injective h6)
      (required_text_lem p.currency e)

module _ (upper lower : Text → Text) (catalog : Text → CatalogAnswer) where
  -- A line that is bought as the catalog offers it: the slug and the quantity are the browser's, the
  -- product is on sale, and it sets the price, the currency and the SKU.
  abbrev pub IsOffered : RequestedLine → Line → Type 0
  IsOffered r l =
      (trimmed (some r.slug) ≡ some l.slug)
      × (l.quantity ≡ r.quantity)
      × ((p : Product) × (catalog r.slug ≡ found p)
          × (p.slug ≡ some l.slug)
          × (p.status ≡ some (codes "active"))
          × (p.amount_minor ≡ integer (pos l.unit_price_minor))
          × (trimmed p.sku_id ≡ some l.sku_id)
          × ((c : Text) × (trimmed p.currency ≡ some c) × (l.currency ≡ upper c))
          × (is_country_code l.origin_country ≡ true))

  -- Line by line.
  abbrev pub AllOffered : List RequestedLine → List Line → Type 0
  AllOffered [] [] = Unit
  AllOffered (r ∷ rs) (l ∷ ls) = IsOffered r l × AllOffered rs ls
  AllOffered _ _ = ⊥

  resolved :
      (line : RequestedLine) {l : Line}
      → resolve_line upper lower catalog line ≡ ok l
      → (p : Product) × (catalog line.slug ≡ found p)
        × (trusted_checkout_line upper lower catalog line p ≡ ok l)
  unfolding resolve_line
  resolved line {l} h = go (catalog line.slug) h
    where
      go :
          (a : CatalogAnswer)
          → elim a [
            | unreachable ↦ err (http dependency_unavailable)
            | missing ↦ err invalid
            | rejected ↦ err (http dependency_unavailable)
            | found p ↦ trusted_checkout_line upper lower catalog line p
          ]
            ≡ ok l
          → (p : Product) × (a ≡ found p)
            × (trusted_checkout_line upper lower catalog line p ≡ ok l)
      go unreachable e = cc
      go missing e = cc
      go rejected e = cc
      go (found p) e = (p, refl, e)

  -- What the end of `trustedCheckoutLine` takes from the product.
  abbrev IsFinished : RequestedLine → Product → Text → ProductTexts → Line → Type 0
  IsFinished line p slug texts l =
      (l.slug ≡ slug)
      × (l.quantity ≡ line.quantity)
      × (p.amount_minor ≡ integer (pos l.unit_price_minor))
      × (trimmed p.sku_id ≡ some l.sku_id)
      × (l.currency ≡ upper texts.currency)
      × (is_country_code l.origin_country ≡ true)

  finished :
      (line : RequestedLine) (p : Product) (slug : Text) (texts : ProductTexts) {l : Line}
      → finish_line upper lower catalog line p slug texts ≡ ok l
      → IsFinished line p slug texts l
  unfolding finish_line
  finished line p slug texts h =
      let (country, h1) =
        throw_if_passed (not (is_country_code (upper texts.origin_country))) invalid _ h in
      let (weight, e2, h2) = bind_ok (positive p.weight_grams) _ h1 in
      let (price, e3, h3) = bind_ok (non_negative p.amount_minor) _ h2 in
      let (sku_id, e4, h4) = bind_ok (required_text p.sku_id) _ h3 in
      let (sku_code, e5, h5) = bind_ok (required_text p.sku_code) _ h4 in
      subst (IsFinished line p slug texts) (ok-injective h5) (
        refl,
        refl,
        non_negative_lem p.amount_minor e3,
        required_text_lem p.sku_id e4,
        refl,
        ground arith,
      )

  trusted :
      (line : RequestedLine) (p : Product) {l : Line}
      → catalog line.slug ≡ found p
      → trusted_checkout_line upper lower catalog line p ≡ ok l
      → IsOffered line l
  unfolding trusted_checkout_line
  trusted line p {l} listed h =
      let (slug, e1, h1) = bind_ok (required_text (some line.slug)) _ h in
      let (_, h2) = throw_if_passed (line.quantity == 0 || ltb 99 line.quantity) invalid _ h1 in
      let (offered, h3) =
        throw_if_passed (not (is_text slug p.slug) || not (is_text (codes "active") p.status))
          invalid _ h2 in
      let (texts, e4, h4) = bind_ok (read_texts p) _ h3 in
      let (its_slug, qty, price, sku_id, currency, country) = finished line p slug texts h4 in
      (
        rw its_slug (required_text_lem (some line.slug) e1),
        qty,
        (
          p,
          listed,
          rw its_slug (is_text_lem slug p.slug (ground arith)),
          is_text_lem (codes "active") p.status (ground arith),
          price,
          sku_id,
          (texts.currency, its_currency p e4, currency),
          country,
        ),
      )

  resolve_lines-AllOffered :
      (rs : List RequestedLine) {ls : List Line}
      → resolve_lines upper lower catalog rs ≡ ok ls
      → AllOffered rs ls
  unfolding resolve_lines
  resolve_lines-AllOffered [] h = subst (AllOffered []) (ok-injective h) tt
  resolve_lines-AllOffered (r ∷ rs) h =
      let (first, e, h') = bind_ok (resolve_line upper lower catalog r) _ h in
      let (others, f, h'') = bind_ok (resolve_lines upper lower catalog rs) _ h' in
      let (p, listed, made) = resolved r e in
      subst (AllOffered (r ∷ rs)) (ok-injective h'')
        (trusted r p listed made, resolve_lines-AllOffered rs f)

  same_currency :
      (currency : Text) (ls : List Line)
      → has_other_currency currency ls ≡ false
      → All (λ (l : Line). l.currency ≡ currency) ls
  same_currency currency [] h = tt
  same_currency currency (l ∷ ls) h =
      ((text_eq_iff l.currency currency).0 (ground arith), same_currency currency ls (ground arith))

  -- A checkout that is accepted: the lines of a valid request, each at what the catalog says, all
  -- of one currency.
  abbrev pub IsTrusted : CheckoutRequest → Checkout → Type 0
  IsTrusted body checkout =
      (request : NormalizedRequest) × (normalize_checkout_request lower body ≡ ok request)
      × IsValid request
      × AllOffered request.lines checkout.lines
      × All (λ (l : Line). l.currency ≡ checkout.currency) checkout.lines

  -- A checkout that is accepted comes from a valid request. Each of its lines has the slug and the
  -- quantity of the request, and the price, the currency and the SKU that the catalog gives for a
  -- product on sale under that slug; all lines are in the currency of the checkout.
  pub resolve_trusted_checkout-IsTrusted :
      (body : CheckoutRequest) {checkout : Checkout}
      → resolve_trusted_checkout upper lower catalog body ≡ ok checkout
      → IsTrusted body checkout
  unfolding resolve_trusted_checkout
  resolve_trusted_checkout-IsTrusted body h =
      let (request, e1, h1) = bind_ok (normalize_checkout_request lower body) _ h in
      let (lines, e2, h2) = bind_ok (resolve_lines upper lower catalog request.lines) _ h1 in
      let (one, h3) =
        throw_if_passed (has_other_currency (first_currency lines) lines) invalid _ h2 in
      subst (IsTrusted body) (ok-injective h3) (
        request,
        e1,
        normalize_checkout_request-IsValid lower body e1,
        resolve_lines-AllOffered request.lines e2,
        same_currency (first_currency lines) lines one,
      )
