-- ===== src/Playback/Frames.antt =====
-- How long the steps of a macro are pressed.
use usb_hid_wireless_bridge.Base.{
  ℕ, zero, suc, ◌-◌, ◌≡◌, refl, ap, ap₂, sym, ◌∙◌, Bool, true, false, List, [], ◌∷◌, ◌++◌, map,
  length, replicate, arith, ltb, if◌then◌else◌,
}
use usb_hid_wireless_bridge.Base.Each.{Each, none_left, and_then}
use usb_hid_wireless_bridge.Playback.{MacroEntry, queue_macro, play_frame, play_frames}

-- A step and the frames in which it is first in the queue: those of its duration, whatever waits to be
-- sent in them, then `busy` frames in which a report waits, and one in which none does.
pub record Step : Type 0 where
  pub usages : List ℕ
  pub during : List Bool
  pub busy : ℕ

abbrev pub entry_of : Step → MacroEntry
entry_of s = record { duration_left = length s.during; items = s.usages }

abbrev pub frames_of : List Step → List Bool
frames_of [] = []
frames_of (s ∷ steps) = s.during ++ (replicate s.busy false ++ (true ∷ frames_of steps))

-- What should be pressed in these frames.
abbrev pub pressed_in : List Step → List (List ℕ)
pressed_in [] = []
pressed_in (s ∷ steps) =
    replicate (length s.during) s.usages
    ++ (replicate s.busy s.usages ++ (s.usages ∷ pressed_in steps))

abbrev in_front : List (List ℕ) → List (List ℕ) × List MacroEntry → List (List ℕ) × List MacroEntry
in_front pressed (rest, queue) = (pressed ++ rest, queue)

wait :
    (k : ℕ) (items : List ℕ) (frames : List Bool) (queue : List MacroEntry)
    → play_frames
        (replicate k false ++ (true ∷ frames))
        (record { duration_left = 0; items = items } ∷ queue)
      ≡ in_front (replicate k items) (in_front (items ∷ []) (play_frames frames queue))
unfolding play_frames play_frame
wait zero items frames queue = refl
wait (suc k) items frames queue = ap (in_front (items ∷ [])) (wait k items frames queue)

one_less :
    (sent : Bool) (n : ℕ) (items : List ℕ) (queue : List MacroEntry)
    → play_frame sent (record { duration_left = suc n; items = items } ∷ queue)
      ≡ (items, record { duration_left = n; items = items } ∷ queue)
unfolding play_frame
one_less sent n items queue =
    let entry : ℕ → MacroEntry = λ m. record { duration_left = m; items = items } in
    let after_it : Bool → List MacroEntry =
      λ b. if b then entry (suc n - 1) ∷ queue else if sent then queue else entry (suc n) ∷ queue in
    ap (λ b. (items, after_it b)) {x = ltb 0 (suc n)} {y = true} (ground arith)
    ∙ ap (λ (m : ℕ). (items, entry m ∷ queue)) {x = suc n - 1} {y = n} (omega arith)

hold :
    (during : List Bool) (items : List ℕ) (frames : List Bool) (queue : List MacroEntry)
    → play_frames
        (during ++ frames)
        (record { duration_left = length during; items = items } ∷ queue)
      ≡ in_front
          (replicate (length during) items)
          (play_frames frames (record { duration_left = 0; items = items } ∷ queue))
unfolding play_frames
hold [] items frames queue = refl
hold (w ∷ during) items frames queue =
    ap (λ (x : List ℕ × List MacroEntry). in_front (x.0 ∷ []) (play_frames (during ++ frames) x.1))
      (one_less w (length during) items queue)
    ∙ ap (in_front (items ∷ [])) (hold during items frames queue)

play_steps :
    (steps : List Step)
    → play_frames (frames_of steps) (map entry_of steps) ≡ (pressed_in steps, [])
unfolding play_frames
play_steps [] = refl
play_steps (s ∷ steps) =
    hold s.during s.usages (replicate s.busy false ++ (true ∷ frames_of steps)) (map entry_of steps)
    ∙ ap (in_front (replicate (length s.during) s.usages)) (
        wait s.busy s.usages (frames_of steps) (map entry_of steps)
        ∙ ap (λ x. in_front (replicate s.busy s.usages) (in_front (s.usages ∷ []) x))
            (play_steps steps))

entries_lem :
    (duration : ℕ) (steps : List Step)
    → Each (λ (s : Step). length s.during ≡ duration) steps
    → map entry_of steps ≡ queue_macro duration (map (λ s. s.usages) steps) []
unfolding queue_macro
entries_lem duration [] none_left = refl
entries_lem duration (s ∷ steps) (and_then h hs) =
    ap₂ (λ n l. record { duration_left = n; items = s.usages } ∷ l) h
      (entries_lem duration steps hs)

-- A macro that is queued while none is running: its steps are pressed one after the other, each for
-- one frame more than the duration of an entry, and longer only while a report still waits to be sent
-- at its end; then the queue is empty again. (A step is given with its usages and the frames of its
-- time: as many as the duration, whatever waits in them, then those in which a report waits, then one
-- in which none does.)
pub play_frames-queue_macro :
    (duration : ℕ) (steps : List Step)
    → Each (λ (s : Step). length s.during ≡ duration) steps
    → play_frames (frames_of steps) (queue_macro duration (map (λ s. s.usages) steps) [])
      ≡ (pressed_in steps, [])
play_frames-queue_macro duration steps h =
    ap (play_frames (frames_of steps)) (sym (entries_lem duration steps h)) ∙ play_steps steps
