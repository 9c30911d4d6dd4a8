-- ===== src/Monitor/Packet.antt =====
-- The invariant of the monitor packet under `monitor_usage`.
use usb_hid_wireless_bridge.Base.{
  ℕ, suc, ◌+◌, ◌≤◌, ◌≡◌, refl, Bool, true, false, List, [], ◌∷◌, ◌++◌, length, length-append,
  Option, none, some, ◌==◌, if◌then◌else◌, arith, Option-cases, inl, inr, ◌⊎◌, ap,
}
use usb_hid_wireless_bridge.Base.Int.{ℤ, int32, ◌+ℤ◌}
use usb_hid_wireless_bridge.Monitor.{
  Item, max_items, is_cursor, is_item, behind, coalesce, append_item, unless_coalesced,
  monitor_usage,
}

-- The number of items of a usage and a port.
abbrev pub count : ℕ → ℕ → List Item → ℕ
count u p [] = 0
count u p (i ∷ items) = if is_item u p i then count u p items + 1 else count u p items

count-append : (u p : ℕ) (xs ys : List Item) → count u p (xs ++ ys) ≡ count u p xs + count u p ys
count-append u p [] ys = omega arith
count-append u p (x ∷ xs) ys = ground (arith, count-append u p xs ys)

coalesce-none :
    (u : ℕ) (v : ℤ) (p : ℕ) (items : List Item) → coalesce u v p items ≡ none → count u p items ≡ 0
unfolding coalesce
coalesce-none u v p [] h = refl
coalesce-none u v p (i ∷ items) h =
    ground (arith, coalesce-none u v p items, Option-cases (coalesce u v p items))

-- As many items, and as many of each usage and port.
abbrev Same : ℕ → ℕ → List Item → Option (List Item) → Type 0
Same w q items none = Unit
Same w q items (some items') = (count w q items' ≡ count w q items) × (length items' ≡ length items)

-- Adding to an item changes neither the number of items nor what they are of.
coalesce-Same :
    (u : ℕ) (v : ℤ) (p : ℕ) (items : List Item) (w q : ℕ) → Same w q items (coalesce u v p items)
unfolding coalesce
coalesce-Same u v p [] w q = tt
coalesce-Same u v p (i ∷ items) w q =
    step (is_item u p i) (coalesce u v p items) (coalesce-Same u v p items w q)
  where
    step :
        (b : Bool) (o : Option (List Item))
        → Same w q items o
        → Same w q
            (i ∷ items)
            (if b then some (record i { value = int32 (i.value +ℤ v) } ∷ items) else behind i o)
    step true o h = (refl, refl)
    step false none h = tt
    step false (some items') h = (ap (λ n. if is_item w q i then n + 1 else n) h.0, ap suc h.1)

-- The invariant of the packet.
pub record IsPacket (items : List Item) : Type 0 where
  pub room : length items ≤ max_items
  pub once : (u p : ℕ) → (is_cursor u ≡ false) ⊎ (count u p items ≤ 1)

append_item-IsPacket :
    (u : ℕ) (v : ℤ) (p : ℕ) (items : List Item)
    → IsPacket items
    → (is_cursor u ≡ false) ⊎ (count u p items ≡ 0)
    → IsPacket (append_item u v p items)
append_item-IsPacket u v p items k new = by_case (length items == max_items) refl
  where
    item : Item
    item = record { usage = u; value = v; hub_port = p }

    once_more : (w q : ℕ) → (is_cursor w ≡ false) ⊎ (count w q (items ++ (item ∷ [])) ≤ 1)
    once_more w q = ground (arith, k.once w q, new, count-append w q items (item ∷ []))

    by_case :
        (b : Bool)
        → (length items == max_items) ≡ b
        → IsPacket (if b then items else items ++ (item ∷ []))
    by_case true e = k
    by_case false e = record {
      room = ground (arith, k.room, length-append items (item ∷ []));
      once = once_more;
    }

-- Whatever is monitored, the packet of seven items never overflows, and a cursor axis of one hub port
-- has one item in it at most.
pub monitor_usage-IsPacket :
    (u : ℕ) (v : ℤ) (p : ℕ) (items : List Item)
    → IsPacket items
    → IsPacket (monitor_usage u v p items)
unfolding monitor_usage
monitor_usage-IsPacket u v p items k =
    by_case (is_cursor u) (coalesce u v p items) refl refl (λ w q. coalesce-Same u v p items w q)
  where
    by_case :
        (b : Bool) (o : Option (List Item))
        → is_cursor u ≡ b
        → coalesce u v p items ≡ o
        → ((w q : ℕ) → Same w q items o)
        → IsPacket
            (if b then unless_coalesced o (append_item u v p items) else append_item u v p items)
    by_case false o e f s = append_item-IsPacket u v p items k (inl e)
    by_case true none e f s = append_item-IsPacket u v p items k (inr (coalesce-none u v p items f))
    by_case true (some items') e f s = record {
      room = omega (arith, k.room, (s 0 0).1);
      once = λ w q. ground (arith, k.once w q, (s w q).0);
    }
