-- ===== src/Flash.antt =====
-- `flash_b_side` and its status, remapper_dual_a.cc: board A writes the program of board B into its
-- flash over SWD and reads it back. What the SWD routines answer comes in as `Swd`, an `int` as the
-- `uint32_t` that the status makes of it.
pub mod Verified
pub mod Written
mod Tests
use usb_hid_wireless_bridge.Base.{
  ℕ, zero, suc, ◌+◌, ◌-◌, ◌%◌, ◌^◌, Bool, true, false, not, List, [], ◌∷◌, Option, none, some,
  length, take, drop, ltb, ◌==◌, if◌then◌else◌, bit_or,
}

-- The answers of the routines of pico_debug: of `swd_init`, `dp_init`, the five calls that select and
-- halt the two cores, the two calls of `rp2040_add_flash_bit`, and `mem_read_block`, with the byte
-- that a read of `count` bytes at an address leaves at an index of its buffer.
pub record Swd : Type 0 where
  pub swd_init : ℕ
  pub dp_init : ℕ
  pub halt_cores : List ℕ
  pub add_flash_bits : List ℕ
  pub mem_read_block : ℕ → ℕ → ℕ
  pub readback : ℕ → ℕ → ℕ → ℕ

-- The `b_flash_loader_` variables.
pub record LoaderStatus : Type 0 where
  pub valid : Bool
  pub phase : ℕ
  pub detail : ℕ
  pub image_length : ℕ
  pub status_source : ℕ

pub record Loader : Type 0 where
  pub swd_initialized : Bool
  pub status : LoaderStatus

unfoldable pub set_b_flash_status : List ℕ → ℕ → ℕ → Loader → Loader
set_b_flash_status image phase detail s = record s {
  status = record {
    valid = true;
    phase = phase;
    detail = detail;
    image_length = length image;
    status_source = 1;
  };
}

-- `if (rc == SWD_OK) rc = ...`, call after call: the first answer that is not SWD_OK.
unfoldable pub first_error : List ℕ → ℕ
first_error [] = 0
first_error (rc ∷ rcs) = if rc == 0 then first_error rcs else rc

-- `if (rc != SWD_OK) { set_b_flash_status(phase, rc); return; }`
unfoldable pub unless_error : List ℕ → ℕ → ℕ → Loader → Option Loader → Option Loader
unless_error image phase rc s next =
    if rc == 0 then next else some (set_b_flash_status image phase rc s)

-- The comparison of a block with the image, from the index i on: the first index that differs.
unfoldable pub first_difference : (ℕ → ℕ) → ℕ → List ℕ → Option ℕ
first_difference readback i [] = none
first_difference readback i (x ∷ xs) =
    if readback i == x then first_difference readback (suc i) xs else some i

-- How reading back ended: the image is there, a detail for the status, or no fuel.
pub data Readback : Type 0 where
  verified : Readback
  failed : ℕ → Readback
  out_of_fuel : Readback

unfoldable pub compared : ℕ → Option ℕ → Readback → Readback
compared offset none rest = rest
compared offset (some i) rest = failed ((offset + i) % 2 ^ 32)

-- The loop over the blocks of 256 bytes, on fuel.
unfoldable pub read_back : ℕ → Swd → List ℕ → ℕ → Readback
read_back zero d image offset = out_of_fuel
read_back (suc fuel) d image offset =
    let rest = read_back fuel d image ((offset + 256) % 2 ^ 32) in
    let block = take 256 (drop offset image) in
    let address = (2 ^ 28 + offset) % 2 ^ 32 in
    let rc = d.mem_read_block address (length block) in
    if not (ltb offset (length image))
    then verified
    else if not (rc == 0)
    then failed (bit_or (2 ^ 31) rc)
    else compared offset (first_difference (d.readback address (length block)) 0 block) rest

unfoldable pub after_readback : List ℕ → Loader → Readback → Option Loader
after_readback image s verified = some (set_b_flash_status image 5 0 s)
after_readback image s (failed detail) = some (set_b_flash_status image 4 detail s)
after_readback image s out_of_fuel = none

unfoldable pub write_image : Swd → List ℕ → Loader → Option Loader
write_image d image s =
    let writing = set_b_flash_status image 3 0 s in
    let reading = set_b_flash_status image 4 0 writing in
    unless_error image 3 (first_error d.add_flash_bits) writing
      (after_readback image reading (read_back (suc (length image)) d image 0))

unfoldable pub reach_cores : Swd → List ℕ → Loader → Option Loader
reach_cores d image s =
    unless_error image 2 d.dp_init s
      (unless_error image 2 (first_error d.halt_cores) s (write_image d image s))

unfoldable pub flash_b_side : Swd → List ℕ → Loader → Option Loader
flash_b_side d image s =
    let started = set_b_flash_status image 1 0 s in
    if s.swd_initialized
    then reach_cores d image started
    else unless_error image 2 d.swd_init started
        (reach_cores d image (record started { swd_initialized = true }))
