-- ===== src/Order/Trusted.antt =====
-- A checkout resolved against the catalog: services/order-service/src/trusted-checkout.ts, and
-- `resolveTrustedCheckout` and `buildMockOrder` of services/order-service/src/main.ts. The lines
-- are resolved in their order; the source resolves them at once, so which of several failures it
-- reports depends on the time they take.
pub mod Prices
use kuajing.Base.{
  ℕ, ◌+◌, ◌*◌, ◌≡◌, Bool, true, false, ◌&&◌, ◌||◌, not, Option, none, some, List, [], ◌∷◌, map, leb,
  ltb, ◌==◌, if◌then◌else◌, or_else,
}
use kuajing.Base.Int.{pos, negsuc, JsNumber, integer, not_integer}
use kuajing.Base.Text.{Text, codes, text_eq, trim, trimmed, is_blank, matches}
use kuajing.Base.Failure.{http, Result, ok, err, ◌>>=◌, ◌>>◌, throw_if, dependency_unavailable}
use kuajing.Inventory.Normalize.{invalid}
use kuajing.Order.Request.{CheckoutRequest, RequestedLine, Address, normalize_checkout_request}
use kuajing.Order.Checkout.{Line}

-- `TrustedCatalogProduct` as it is read from the answer of the catalog: a text that is none is not
-- a string there, and a number is the one that `Number` makes of what is there.
pub record Product : Type 0 where
  pub slug : Option Text
  pub status : Option Text
  pub sku_id : Option Text
  pub sku_code : Option Text
  pub origin_country : Option Text
  pub amount_minor : JsNumber
  pub currency : Option Text
  pub name : Option Text
  pub material : Option Text
  pub hs_code : Option Text
  pub customs_declaration : Option Text
  pub weight_grams : JsNumber

-- What the catalog answers for a slug.
pub data CatalogAnswer : Type 0 where
  unreachable missing rejected : CatalogAnswer
  found : Product → CatalogAnswer

-- `requiredText`; its errors all become the same one.
unfoldable pub required_text : Option Text → Result Text
required_text value = elim (trimmed value) [ none ↦ err invalid | some t ↦ ok t ]

abbrev pub is_text : Text → Option Text → Bool
is_text t none = false
is_text t (some s) = text_eq s t

abbrev pub is_capital : ℕ → Bool
is_capital c = leb b'A' c && leb c b'Z'

-- `/^[A-Z]{2}$/`
abbrev pub is_country_code : Text → Bool
is_country_code t = matches (is_capital ∷ is_capital ∷ []) t

-- `Number.isInteger(n) && n > 0`, and the number.
unfoldable pub positive : JsNumber → Result ℕ
positive not_integer = err invalid
positive (integer (negsuc n)) = err invalid
positive (integer (pos n)) = if n == 0 then err invalid else ok n

-- `Number.isInteger(n) && n >= 0`, and the number.
unfoldable pub non_negative : JsNumber → Result ℕ
non_negative not_integer = err invalid
non_negative (integer (negsuc n)) = err invalid
non_negative (integer (pos n)) = ok n

-- `NormalizedCheckout`
pub record Checkout : Type 0 where
  pub customer_email : Text
  pub payment_method : Text
  pub shipping_address : Address
  pub lines : List Line
  pub currency : Text

abbrev pub has_other_currency : Text → List Line → Bool
has_other_currency currency [] = false
has_other_currency currency (l ∷ ls) =
    not (text_eq l.currency currency) || has_other_currency currency ls

-- `lines[0]?.currency ?? "USD"`
abbrev pub first_currency : List Line → Text
first_currency [] = codes "USD"
first_currency (l ∷ ls) = l.currency

-- `checkout.lines.reduce(…)` of `buildMockOrder`.
abbrev pub total_minor : List Line → ℕ
total_minor [] = 0
total_minor (l ∷ ls) = l.unit_price_minor * l.quantity + total_minor ls

-- The texts that `trustedCheckoutLine` reads, before it changes their case.
pub record ProductTexts : Type 0 where
  pub title : Text
  pub hs_code : Text
  pub material : Text
  pub customs_declaration : Text
  pub origin_country : Text
  pub currency : Text

unfoldable pub read_texts : Product → Result ProductTexts
read_texts product = do
  title ← required_text product.name
  hs_code ← required_text product.hs_code
  material ← required_text product.material
  customs_declaration ← required_text product.customs_declaration
  origin_country ← required_text product.origin_country
  currency ← required_text product.currency
  ok (record {
    title = title;
    hs_code = hs_code;
    material = material;
    customs_declaration = customs_declaration;
    origin_country = origin_country;
    currency = currency;
  })

-- `toUpperCase`, `toLowerCase`, and the catalog by slug.
module _ (upper lower : Text → Text) (catalog : Text → CatalogAnswer) where
  -- The end of `trustedCheckoutLine`, from the test of the origin country on.
  unfoldable pub finish_line : RequestedLine → Product → Text → ProductTexts → Result Line
  finish_line line product slug texts = do
    throw_if (not (is_country_code (upper texts.origin_country))) invalid
    weight_grams ← positive product.weight_grams
    unit_price_minor ← non_negative product.amount_minor
    sku_id ← required_text product.sku_id
    sku_code ← required_text product.sku_code
    ok (record {
      slug = slug;
      sku_id = sku_id;
      sku_code = sku_code;
      title = texts.title;
      hs_code = texts.hs_code;
      material = texts.material;
      customs_declaration = texts.customs_declaration;
      origin_country = upper texts.origin_country;
      weight_grams = weight_grams;
      quantity = line.quantity;
      unit_price_minor = unit_price_minor;
      currency = upper texts.currency;
    })

  -- `trustedCheckoutLine`
  unfoldable pub trusted_checkout_line : RequestedLine → Product → Result Line
  trusted_checkout_line line product = do
    slug ← required_text (some line.slug)
    throw_if (line.quantity == 0 || ltb 99 line.quantity) invalid
    throw_if (not (is_text slug product.slug) || not (is_text (codes "active") product.status))
        invalid
    texts ← read_texts product
    finish_line line product slug texts

  -- The callback of `request.lines.map`.
  unfoldable pub resolve_line : RequestedLine → Result Line
  resolve_line line = elim (catalog line.slug) [
    | unreachable ↦ err (http dependency_unavailable)
    | missing ↦ err invalid
    | rejected ↦ err (http dependency_unavailable)
    | found product ↦ trusted_checkout_line line product
  ]

  unfoldable pub resolve_lines : List RequestedLine → Result (List Line)
  resolve_lines [] = ok []
  resolve_lines (line ∷ lines) =
      let rest = resolve_lines lines in
      do first ← resolve_line line; others ← rest; ok (first ∷ others)

  -- `resolveTrustedCheckout`
  unfoldable pub resolve_trusted_checkout : CheckoutRequest → Result Checkout
  resolve_trusted_checkout body = do
    request ← normalize_checkout_request lower body
    lines ← resolve_lines request.lines
    throw_if (has_other_currency (first_currency lines) lines) invalid
    ok (record {
      customer_email = request.customer_email;
      payment_method = request.payment_method;
      shipping_address = request.shipping_address;
      lines = lines;
      currency = first_currency lines;
    })
