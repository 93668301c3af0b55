-- ===== src/Inventory/Memory/Sound.antt =====
-- Any sequence of calls of `InventoryMemoryStore` (services/inventory-service/src/main.ts).
use kuajing.Base.{◌≡◌, refl, List, [], ◌∷◌, arith, inl, inr, Option-cases, find, or_else}
use kuajing.Base.Int.{pos}
use kuajing.Base.Text.{Text, text_eq}
use kuajing.Base.Dict.{get, values, IsKeyed, set-IsKeyed, get-find}
use kuajing.Inventory.Types.{ReservationInput, Adjustment, Config, Fresh}
use kuajing.Inventory.Memory.{
  Item, Reservation, Store, item_key, ensure_item, new_store, try_reserve, replay, reserve_new,
  confirm, confirm_found, cancel, cancel_found, take_stock, deduct, give_back,
}
use kuajing.Inventory.Memory.Admin.{
  release_reservation, release_found, adjust_item, adjust_found, audit, adjusted,
}
use kuajing.Inventory.Memory.Ledger.{held, ensure_item-IsBalanced, reserved_of}
use kuajing.Inventory.Memory.Balance.{
  IsSound, ensure_item-IsKeyed, reserve_new-IsBalanced, confirm_found-IsBalanced,
  cancel_found-IsBalanced, adjust_found-IsBalanced,
}

module _ (cfg : Config) (fresh : Fresh) where
  reserve_new-IsKeyed :
      (input : ReservationInput) (st : Store)
      → IsKeyed st.items
      → IsKeyed (reserve_new cfg fresh input st).1.items
  unfolding reserve_new
  reserve_new-IsKeyed input st h =
      ground (arith, ensured, set-IsKeyed key written st'.items ensured)
    where
      key : Text
      key = item_key (or_else input.warehouse_id cfg.default_warehouse_id) input.sku_id

      st' : Store
      st' =
          (ensure_item cfg fresh input.sku_id (or_else input.warehouse_id cfg.default_warehouse_id)
            st).1

      item : Item
      item =
          (ensure_item cfg fresh input.sku_id (or_else input.warehouse_id cfg.default_warehouse_id)
            st).0

      ensured : IsKeyed st'.items
      ensured =
          ensure_item-IsKeyed cfg fresh input.sku_id
            (or_else input.warehouse_id cfg.default_warehouse_id) st h

      written : Item
      written = record item { stock = take_stock input.qty item.stock }

  pub try_reserve-IsSound :
      (input : ReservationInput) (st : Store)
      → IsSound st
      → IsSound (try_reserve cfg fresh input st).1
  unfolding try_reserve replay
  try_reserve-IsSound input st h = elim (Option-cases (get input.idempotency_key st.reservations)) [
    | inl e ↦
        rw (e, try_reserve)
          (record {
            keyed = reserve_new-IsKeyed input st h.keyed;
            balanced = reserve_new-IsBalanced cfg fresh input st e h.balanced;
          })
    | inr (r, e) ↦
        rw (e, try_reserve)
          (record {
            keyed =
                ground (arith, ensure_item-IsKeyed cfg fresh r.sku_id r.warehouse_id st h.keyed);
            balanced = λ k. ground (
              arith,
              h.balanced k,
              ensure_item-IsBalanced cfg fresh r.sku_id r.warehouse_id st h.balanced k,
            );
          })
  ]

  pub confirm-IsSound : (j : Text) (st : Store) → IsSound st → IsSound (confirm cfg fresh j st).1
  unfolding confirm confirm_found
  confirm-IsSound j st h = elim (Option-cases (get j st.reservations)) [
    | inl e ↦ rw (e, confirm) h
    | inr (r, e) ↦
        rw (e, confirm)
          (record {
            keyed = ground (
              arith,
              ensured r,
              set-IsKeyed (item_key r.warehouse_id r.sku_id)
                  (record (item r) { stock = deduct r.qty (item r).stock }) (st' r).items
                  (ensured r),
            );
            balanced = confirm_found-IsBalanced cfg fresh j r st e h.balanced;
          })
  ]
    where
      item : Reservation → Item
      item r = (ensure_item cfg fresh r.sku_id r.warehouse_id st).0

      st' : Reservation → Store
      st' r = (ensure_item cfg fresh r.sku_id r.warehouse_id st).1

      ensured : (r : Reservation) → IsKeyed (st' r).items
      ensured r = ensure_item-IsKeyed cfg fresh r.sku_id r.warehouse_id st h.keyed

  pub cancel-IsSound : (j : Text) (st : Store) → IsSound st → IsSound (cancel cfg fresh j st).1
  unfolding cancel cancel_found
  cancel-IsSound j st h = elim (Option-cases (get j st.reservations)) [
    | inl e ↦ rw (e, cancel) h
    | inr (r, e) ↦
        rw (e, cancel)
          (record {
            keyed = ground (
              arith,
              ensured r,
              set-IsKeyed (item_key r.warehouse_id r.sku_id)
                  (record (item r) { stock = give_back r.qty (item r).stock }) (st' r).items
                  (ensured r),
            );
            balanced = cancel_found-IsBalanced cfg fresh j r st e h.balanced;
          })
  ]
    where
      item : Reservation → Item
      item r = (ensure_item cfg fresh r.sku_id r.warehouse_id st).0

      st' : Reservation → Store
      st' r = (ensure_item cfg fresh r.sku_id r.warehouse_id st).1

      ensured : (r : Reservation) → IsKeyed (st' r).items
      ensured r = ensure_item-IsKeyed cfg fresh r.sku_id r.warehouse_id st h.keyed

  pub release_reservation-IsSound :
      (correlation_id reservation_id actor_id reason : Text) (st : Store)
      → IsSound st
      → IsSound (release_reservation cfg fresh correlation_id reservation_id actor_id reason st).1
  unfolding release_reservation release_found audit
  release_reservation-IsSound correlation_id reservation_id actor_id reason st h =
      elim (Option-cases
        (find (λ (r : Reservation). text_eq r.id reservation_id) (values st.reservations))) [
          | inl e ↦ rw (e, release_reservation) h
          | inr (r, e) ↦
              rw (e, release_reservation)
                (record {
                  keyed = ground (arith, (after r).keyed);
                  balanced = λ k. ground (arith, (after r).balanced k);
                })
        ]
    where
      st' : Reservation → Store
      st' r = (ensure_item cfg fresh r.sku_id r.warehouse_id st).1

      after : (r : Reservation) → IsSound (cancel cfg fresh r.idempotency_key (st' r)).1
      after r = cancel-IsSound r.idempotency_key (st' r) (record {
        keyed = ensure_item-IsKeyed cfg fresh r.sku_id r.warehouse_id st h.keyed;
        balanced = ensure_item-IsBalanced cfg fresh r.sku_id r.warehouse_id st h.balanced;
      })

pub adjust_item-IsSound :
    (fresh : Fresh) (correlation_id item_id : Text) (input : Adjustment) (st : Store)
    → IsSound st
    → IsSound (adjust_item fresh correlation_id item_id input st).1
unfolding adjust_item adjust_found audit
adjust_item-IsSound fresh correlation_id item_id input st h =
    elim (Option-cases (find (λ (e : Text × Item). text_eq (e.1).id item_id) st.items)) [
      | inl e ↦ rw (e, adjust_item) h
      | inr ((key, item), e) ↦
          rw (e, adjust_item)
            (record {
              keyed = ground (
                arith,
                set-IsKeyed key (record item { stock = adjusted input item.stock }) st.items
                    h.keyed,
              );
              balanced =
                  adjust_found-IsBalanced fresh correlation_id input key item st
                    (get-find (λ (e : Text × Item). text_eq (e.1).id item_id) key item st.items
                      h.keyed e)
                    h.balanced;
            })
    ]

-- A call of the store, with what it draws from `randomUUID()` and the clock.
pub data Call : Type 0 where
  reserving : Fresh → ReservationInput → Call
  confirming cancelling : Fresh → Text → Call
  releasing : Fresh → Text → Text → Text → Text → Call
  adjusting : Fresh → Text → Text → Adjustment → Call

unfoldable pub perform : Config → Call → Store → Store
perform cfg (reserving fresh input) st = (try_reserve cfg fresh input st).1
perform cfg (confirming fresh j) st = (confirm cfg fresh j st).1
perform cfg (cancelling fresh j) st = (cancel cfg fresh j st).1
perform cfg (releasing fresh c i a r) st = (release_reservation cfg fresh c i a r st).1
perform cfg (adjusting fresh c i input) st = (adjust_item fresh c i input st).1

-- The store after the calls, in their order, whatever they returned.
unfoldable pub perform_all : Config → List Call → Store → Store
perform_all cfg [] st = st
perform_all cfg (c ∷ cs) st = perform_all cfg cs (perform cfg c st)

perform-IsSound : (cfg : Config) (c : Call) (st : Store) → IsSound st → IsSound (perform cfg c st)
unfolding perform
perform-IsSound cfg (reserving fresh input) st h = try_reserve-IsSound cfg fresh input st h
perform-IsSound cfg (confirming fresh j) st h = confirm-IsSound cfg fresh j st h
perform-IsSound cfg (cancelling fresh j) st h = cancel-IsSound cfg fresh j st h
perform-IsSound cfg (releasing fresh c i a r) st h =
    release_reservation-IsSound cfg fresh c i a r st h
perform-IsSound cfg (adjusting fresh c i input) st h = adjust_item-IsSound fresh c i input st h

perform_all-IsSound :
    (cfg : Config) (cs : List Call) (st : Store) → IsSound st → IsSound (perform_all cfg cs st)
unfolding perform_all
perform_all-IsSound cfg [] st h = h
perform_all-IsSound cfg (c ∷ cs) st h =
    perform_all-IsSound cfg cs (perform cfg c st) (perform-IsSound cfg c st h)

new_store-IsSound : (cfg : Config) (fresh : Fresh) → IsSound (new_store cfg fresh)
unfolding new_store held get
new_store-IsSound cfg fresh = record {
  keyed = ensure_item-IsKeyed cfg fresh cfg.default_sku_id cfg.default_warehouse_id empty tt;
  balanced =
      ensure_item-IsBalanced cfg fresh cfg.default_sku_id cfg.default_warehouse_id empty
        (λ k. refl);
}
  where
    empty : Store
    empty = record { items = []; reservations = []; audit_events = [] }

-- After any calls on a new store, whatever they returned, the reserved quantity of each item is
-- the sum of the quantities of the reservations on it that are neither confirmed nor cancelled.
pub reserved_matches_open :
    (cfg : Config) (fresh : Fresh) (cs : List Call) (warehouse_id sku_id : Text)
    → let st = perform_all cfg cs (new_store cfg fresh) in
      reserved_of (get (item_key warehouse_id sku_id) st.items)
      ≡ pos (held (item_key warehouse_id sku_id) st.reservations)
reserved_matches_open cfg fresh cs warehouse_id sku_id =
    (perform_all-IsSound cfg cs (new_store cfg fresh) (new_store-IsSound cfg fresh)).balanced
      (item_key warehouse_id sku_id)
