-- ===== src/Flash/Written.antt =====
-- When `flash_b_side` gets through, remapper_dual_a.cc.
use usb_hid_wireless_bridge.Base.{
  ℕ, zero, suc, ◌+◌, ◌%◌, ◌^◌, ◌≤◌, ◌<◌, ◌≡◌, ◌⊎◌, inl, inr, refl, ap, sym, ◌∙◌, subst, true, not,
  List, [], ◌∷◌, ◌++◌, Option, none, some, length, take, drop, take-append-drop, ltb, ◌==◌, arith,
}
use usb_hid_wireless_bridge.Base.Each.{Each, none_left, and_then}
use usb_hid_wireless_bridge.Flash.{
  Swd, Loader, verified, set_b_flash_status, first_error, unless_error, first_difference, compared,
  read_back, after_readback, write_image, reach_cores, flash_b_side,
}
use usb_hid_wireless_bridge.Flash.Verified.{
  holds, holds_nothing, ReadsFlash, by_test, drop-drop, short_block,
}

holds_front :
    (flash : ℕ → ℕ) (a : ℕ) (xs ys : List ℕ)
    → holds flash a (xs ++ ys) ≡ true
    → holds flash a xs ≡ true
unfolding holds
holds_front flash a [] ys h = refl
holds_front flash a (x ∷ xs) ys h =
    let rest : holds flash (suc a) xs ≡ true =
      holds_front flash (suc a) xs ys (ground (arith, h)) in
    ground (arith, h, rest)

holds_back :
    (flash : ℕ → ℕ) (a : ℕ) (xs ys : List ℕ)
    → holds flash a (xs ++ ys) ≡ true
    → holds flash (a + length xs) ys ≡ true
unfolding holds
holds_back flash a [] ys h = subst (λ n. holds flash n ys ≡ true) (omega arith) h
holds_back flash a (x ∷ xs) ys h =
    subst (λ n. holds flash n ys ≡ true) (omega arith)
      (holds_back flash (suc a) xs ys (ground (arith, h)))

holds-first_difference :
    (flash readback : ℕ → ℕ) (a i n : ℕ) (xs : List ℕ)
    → ((j : ℕ) → j < n → readback j ≡ flash (a + j))
    → i + length xs ≤ n
    → holds flash (a + i) xs ≡ true
    → first_difference readback i xs ≡ none
unfolding first_difference holds
holds-first_difference flash readback a i n [] r b h = refl
holds-first_difference flash readback a i n (x ∷ xs) r b h =
    let byte = r i (omega (arith, b)) in
    let equal : (readback i == x) ≡ true = ground (arith, byte, h) in
    let after : holds flash (suc (a + i)) xs ≡ true = ground (arith, h) in
    let rest : first_difference readback (suc i) xs ≡ none =
      holds-first_difference flash readback a (suc i) n xs r (omega (arith, b))
        (subst (λ m. holds flash m xs ≡ true) (omega arith) after) in
    ground (arith, equal, rest)

-- What follows the block is in the flash too: it starts 256 bytes on, or there is none.
holds_next :
    (flash : ℕ → ℕ) (a n : ℕ) (rest : List ℕ)
    → (n ≡ 256) ⊎ (rest ≡ [])
    → holds flash (a + n) rest ≡ true
    → holds flash (a + 256) rest ≡ true
holds_next flash a n rest (inl e) h = subst (λ m. holds flash (a + m) rest ≡ true) e h
holds_next flash a n rest (inr e) h =
    subst (λ l. holds flash (a + 256) l ≡ true) (sym e) (holds_nothing flash (a + 256))

read_back-verified :
    (flash : ℕ → ℕ) (d : Swd) (image : List ℕ) (fuel offset : ℕ)
    → ReadsFlash flash d
    → ((address count : ℕ) → d.mem_read_block address count ≡ 0)
    → length image ≤ 2 ^ 24
    → 0 < fuel
    → length image < fuel + offset
    → offset < 2 ^ 25
    → holds flash (2 ^ 28 + offset) (drop offset image) ≡ true
    → read_back fuel d image offset ≡ verified
unfolding read_back compared
read_back-verified flash d image zero offset r ok b p f o h = absurd (omega (arith, p))
read_back-verified flash d image (suc fuel) offset r ok b p f o h =
    by_test (λ z. z ≡ verified) (not (ltb offset (length image))) verified _ (λ e. refl)
      (λ e.
        by_test (λ z. z ≡ verified) (not (d.mem_read_block (a % 2 ^ 32) (length block) == 0)) _ _
          (λ u. absurd (ground (arith, u, ok (a % 2 ^ 32) (length block))))
          (λ u.
            ap (λ z. compared offset z (read_back fuel d image ((offset + 256) % 2 ^ 32)))
              (same_block)
            ∙ ap (read_back fuel d image) (omega (arith, o))
            ∙ read_back-verified flash d image fuel (offset + 256) r ok b (ground (arith, e, f))
                (omega (arith, f)) (ground (arith, e, b)) next))
  where
    a : ℕ
    a = 2 ^ 28 + offset

    block : List ℕ
    block = take 256 (drop offset image)

    parts : holds flash a (block ++ drop 256 (drop offset image)) ≡ true
    parts = subst (λ l. holds flash a l ≡ true) (sym (take-append-drop 256 (drop offset image))) h

    same_block : first_difference (d.readback (a % 2 ^ 32) (length block)) 0 block ≡ none
    same_block =
        let address : a % 2 ^ 32 ≡ a = omega (arith, o) in
        holds-first_difference flash (d.readback (a % 2 ^ 32) (length block)) a 0 (length block)
          block
          (λ j l.
            r (a % 2 ^ 32) (length block) j (ok (a % 2 ^ 32) (length block)) l
            ∙ ap (λ n. flash (n + j)) address)
          (omega arith)
          (subst (λ n. holds flash n block ≡ true) (omega arith)
            (holds_front flash a block _ parts))

    next : holds flash (2 ^ 28 + (offset + 256)) (drop (offset + 256) image) ≡ true
    next =
        subst (λ l. holds flash (2 ^ 28 + (offset + 256)) l ≡ true) (drop-drop 256 offset image)
          (subst (λ n. holds flash n (drop 256 (drop offset image)) ≡ true) (omega arith)
            (holds_next flash a (length block) (drop 256 (drop offset image))
              (short_block 256 (drop offset image)) (holds_back flash a block _ parts)))

-- Every SWD routine answers SWD_OK.
pub record AllOk (d : Swd) : Type 0 where
  pub init_lem : d.swd_init ≡ 0
  pub dp_init_lem : d.dp_init ≡ 0
  pub halt_lem : Each (λ rc. rc ≡ 0) d.halt_cores
  pub flash_lem : Each (λ rc. rc ≡ 0) d.add_flash_bits
  pub read_lem : (address count : ℕ) → d.mem_read_block address count ≡ 0

no_error : (rcs : List ℕ) → Each (λ rc. rc ≡ 0) rcs → first_error rcs ≡ 0
unfolding first_error
no_error [] none_left = refl
no_error (rc ∷ rcs) (and_then e es) = ground (arith, e, no_error rcs es)

goes_on :
    (image : List ℕ) (phase rc : ℕ) (s : Loader) (next : Option Loader)
    → rc ≡ 0
    → unless_error image phase rc s next ≡ next
unfolding unless_error
goes_on image phase rc s next e =
    by_test (λ z. z ≡ next) (rc == 0) next _ (λ t. refl) (λ t. absurd (ground (arith, t, e)))

reach_cores-written :
    (flash : ℕ → ℕ) (d : Swd) (image : List ℕ) (s : Loader)
    → ReadsFlash flash d
    → AllOk d
    → length image ≤ 2 ^ 24
    → holds flash (2 ^ 28) image ≡ true
    → reach_cores d image s ≡ some (set_b_flash_status image 5 0 s)
unfolding reach_cores write_image after_readback set_b_flash_status
reach_cores-written flash d image s r ok b h =
    goes_on image 2 d.dp_init s _ ok.dp_init_lem
    ∙ goes_on image 2 (first_error d.halt_cores) s _ (no_error d.halt_cores ok.halt_lem)
    ∙ goes_on image 3 (first_error d.add_flash_bits) _ _ (no_error d.add_flash_bits ok.flash_lem)
    ∙ ap (after_readback image (set_b_flash_status image 4 0 (set_b_flash_status image 3 0 s))) (
        read_back-verified flash d image (suc (length image)) 0 r ok.read_lem b (omega arith)
          (omega arith) (omega arith) h)

-- When every SWD routine answers SWD_OK and the program, of at most 2^24 bytes, is in the flash that the
-- reads give, `flash_b_side` ends with the status 5, for its image, and SWD is initialized.
pub flash_b_side-written :
    (flash : ℕ → ℕ) (d : Swd) (image : List ℕ) (s : Loader)
    → ReadsFlash flash d
    → AllOk d
    → length image ≤ 2 ^ 24
    → holds flash (2 ^ 28) image ≡ true
    → flash_b_side d image s
      ≡ some (set_b_flash_status image 5 0 (record s { swd_initialized = true }))
unfolding flash_b_side set_b_flash_status
flash_b_side-written flash d image s r ok b h =
    by_test (λ z. z ≡ some (set_b_flash_status image 5 0 (record s { swd_initialized = true })))
      s.swd_initialized _ _
      (λ e.
        reach_cores-written flash d image _ r ok b h
        ∙ ap (λ i. some (set_b_flash_status image 5 0 (record s { swd_initialized = i }))) e)
      (λ e.
        goes_on image 2 d.swd_init _ _ ok.init_lem ∙ reach_cores-written flash d image _ r ok b h)
