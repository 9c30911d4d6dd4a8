-- ===== src/Flash/Tests.antt =====
-- A program of 258 bytes, which takes two blocks.
use usb_hid_wireless_bridge.Base.{
  ℕ, ◌+◌, ◌^◌, ◌≡◌, refl, true, false, List, [], ◌∷◌, ◌++◌, some, replicate, arith, ltb,
  if◌then◌else◌,
}
use usb_hid_wireless_bridge.Flash.{
  Swd, Loader, flash_b_side, unless_error, reach_cores, first_error, write_image, after_readback,
  read_back, compared, first_difference, set_b_flash_status,
}
use usb_hid_wireless_bridge.Base.Each.{and_then, none_left}
use usb_hid_wireless_bridge.Flash.Verified.{Ends, flash_b_side-Ends, holds}
use usb_hid_wireless_bridge.Flash.Written.{AllOk, flash_b_side-written}

abbrev image : List ℕ
image = replicate 257 7 ++ (9 ∷ [])

abbrev flash : ℕ → ℕ
flash a = if ltb a (2 ^ 28 + 257) then 7 else 9

abbrev swd : (ℕ → ℕ) → Swd
swd memory = record {
  swd_init = 0;
  dp_init = 0;
  halt_cores = replicate 5 0;
  add_flash_bits = 0 ∷ 0 ∷ [];
  mem_read_block = λ address count. 0;
  readback = λ address count i. memory (address + i);
}

abbrev loader : Loader
loader = record {
  swd_initialized = false;
  status = record { valid = false; phase = 0; detail = 0; image_length = 0; status_source = 0 };
}

abbrev ended : ℕ → ℕ → Loader
ended phase detail = record {
  swd_initialized = true;
  status = record {
    valid = true;
    phase = phase;
    detail = detail;
    image_length = 258;
    status_source = 1;
  };
}

written_test : flash_b_side (swd flash) image loader ≡ some (ended 5 0)
unfolding flash_b_side unless_error reach_cores first_error write_image after_readback read_back
    compared first_difference set_b_flash_status
written_test = refl

last_byte_test : flash_b_side (swd (λ a. 7)) image loader ≡ some (ended 4 257)
unfolding flash_b_side unless_error reach_cores first_error write_image after_readback read_back
    compared first_difference set_b_flash_status
last_byte_test = refl

flash_b_side-Ends_example : Ends flash image (flash_b_side (swd flash) image loader)
flash_b_side-Ends_example =
    flash_b_side-Ends flash (swd flash) image loader (λ address count i ok inside. refl)
      (ground arith)

swd-AllOk : AllOk (swd flash)
swd-AllOk = record {
  init_lem = refl;
  dp_init_lem = refl;
  halt_lem =
      and_then refl (and_then refl (and_then refl (and_then refl (and_then refl none_left))));
  flash_lem = and_then refl (and_then refl none_left);
  read_lem = λ address count. refl;
}

image_in_flash : holds flash (2 ^ 28) image ≡ true
unfolding holds
image_in_flash = refl

flash_b_side-written_example :
    flash_b_side (swd flash) image loader
    ≡ some (set_b_flash_status image 5 0 (record loader { swd_initialized = true }))
flash_b_side-written_example =
    flash_b_side-written flash (swd flash) image loader (λ address count i ok inside. refl)
      swd-AllOk (ground arith) image_in_flash
