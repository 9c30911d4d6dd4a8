-- ===== src/Packed/RoundTrip.antt =====
-- What is written by the loops of config.cc and read back by them.
use usb_hid_wireless_bridge.Base.{
  ℕ, ◌+◌, ◌*◌, ◌/◌, ◌%◌, ◌^◌, ◌<◌, ◌≡◌, refl, ap, ◌∙◌, sym, List, [], ◌∷◌, ◌++◌, Option, none, some,
  length, append_assoc, arith,
}
use usb_hid_wireless_bridge.Base.Each.{Each, none_left, and_then}
use usb_hid_wireless_bridge.Packed.{Reader, ◌>>=◌, done, read_n, write_each}

pub u16_back : (v : ℕ) → v < 2 ^ 16 → v % 256 + v / 2 ^ 8 % 256 * 2 ^ 8 ≡ v
u16_back v h = omega arith

pub u32_back :
    (v : ℕ)
    → v < 2 ^ 32
    → v % 256 + v / 2 ^ 8 % 256 * 2 ^ 8 + v / 2 ^ 16 % 256 * 2 ^ 16 + v / 2 ^ 24 % 256 * 2 ^ 24 ≡ v
u32_back v h = omega arith

module _ {ℓ} {A : Type ℓ} where
  -- Whatever follows, `get` reads x from `bytes` and stops behind them.
  abbrev pub Reads : Reader A → List ℕ → A → Type ℓ
  Reads get bytes x = (rest : List ℕ) → get (bytes ++ rest) ≡ some (x, rest)

module _ {ℓ κ} {A : Type ℓ} {B : Type κ} where
  -- The first of two reads is done.
  pub then_read :
      (get : Reader A) (f : A → Reader B) (bytes rest : List ℕ) (x : A)
      → Reads get bytes x
      → (get >>= f) (bytes ++ rest) ≡ f x rest
  unfolding ◌>>=◌
  then_read get f bytes rest x h =
      ap (λ (o : Option (A × List ℕ)). elim o [ none ↦ none | some (a, r) ↦ f a r ]) (h rest)

  -- Two reads, one behind the other.
  pub Reads-append :
      (get : Reader A) (f : A → Reader B) (bytes more : List ℕ) (x : A) (y : B)
      → Reads get bytes x
      → Reads (f x) more y
      → Reads (get >>= f) (bytes ++ more) y
  Reads-append get f bytes more x y h k rest =
      ap (get >>= f) (append_assoc bytes more rest)
      ∙ then_read get f bytes (more ++ rest) x h
      ∙ k rest

module _ {ℓ} {A : Type ℓ} where
  pub read_n-write_each :
      (get : Reader A) (put : A → List ℕ) (xs : List A)
      → Each (λ x. Reads get (put x) x) xs
      → Reads (read_n (length xs) get) (write_each put xs) xs
  unfolding read_n write_each ◌>>=◌
  read_n-write_each get put [] none_left rest = refl
  read_n-write_each get put (x ∷ xs) (and_then p ps) rest =
      Reads-append get _ (put x) (write_each put xs) x (x ∷ xs) p
        (λ more.
          then_read (read_n (length xs) get) _ (write_each put xs) more xs
            (read_n-write_each get put xs ps))
        rest

  -- A loop that reads as many elements as were written.
  pub read_exactly :
      (n : ℕ) (get : Reader A) (put : A → List ℕ) (xs : List A)
      → length xs ≡ n
      → Each (λ x. Reads get (put x) x) xs
      → Reads (read_n n get) (write_each put xs) xs
  read_exactly n get put xs e ps rest =
      ap (λ k. read_n k get (write_each put xs ++ rest)) (sym e)
      ∙ read_n-write_each get put xs ps rest

module _ {ℓ} {A B C D E : Type ℓ} where
  -- Four arrays, one behind the other, as in the body of a configuration.
  pub four_parts :
      (f : A → B → C → D → E) (ga : Reader A) (gb : Reader B) (gc : Reader C) (gd : Reader D)
      (ma mb mc md : List ℕ) (a : A) (b : B) (c : C) (d : D)
      → Reads ga ma a
      → Reads gb mb b
      → Reads gc mc c
      → Reads gd md d
      → Reads
          (ga >>= (λ a. gb >>= (λ b. gc >>= (λ c. gd >>= (λ d. done (f a b c d))))))
          (ma ++ (mb ++ (mc ++ md)))
          (f a b c d)
  four_parts f ga gb gc gd ma mb mc md a b c d ra rb rc rd =
      Reads-append ga (λ a. gb >>= (λ b. gc >>= (λ c. gd >>= (λ d. done (f a b c d))))) ma
        (mb ++ (mc ++ md)) a (f a b c d) ra
        (Reads-append gb (λ b. gc >>= (λ c. gd >>= (λ d. done (f a b c d)))) mb (mc ++ md) b
          (f a b c d) rb
          (Reads-append gc (λ c. gd >>= (λ d. done (f a b c d))) mc md c (f a b c d) rc
            (λ rest. then_read gd (λ d. done (f a b c d)) md rest d rd)))
