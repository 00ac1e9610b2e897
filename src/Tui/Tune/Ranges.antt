-- ===== src/Tui/Tune/Ranges.antt =====
-- The inventory parameters under any sequence of keys.
use guhfrtui.Base.{
  ℕ, zero, suc, ◌+◌, ◌-◌, ◌*◌, ◌/◌, ◌%◌, ◌≤◌, ◌<◌, bit_xor, Bool, true, false, not, ◌||◌, List, [],
  ◌∷◌, Option, none, some, nat_beq, ltb, leb, if◌then◌else◌, if_intro, bytes_eq, ◌==◌, Bytes, arith,
}
use guhfrtui.Text.Parts.{codes}
use guhfrtui.Sdk.Config.{millisecond}
use guhfrtui.Tui.ConnectPlan.{clamp_int}
use guhfrtui.Reader18.Commands.{set_scan_time_command, set_antenna_mux_command}
use guhfrtui.Tui.Tune.{
  Model, new_model, Delta, down, up, Preset, fast, balanced, long_range, shift, adjusted,
  inv_tune_count, adjust_inventory_setting, apply_inventory_preset, set_scan_mask,
  run_inventory_action, parse_digit, pick_row, update_inventory_keys,
}

-- What the reader accepts, and the rows that exist.
pub record InRange (m : Model) : Type 0 where
  pub row : m.inventory_index < inv_tune_count
  pub q_value : m.q_value ≤ 15
  pub session : m.session ≤ 3
  pub target : m.target ≤ 1
  pub scan_time_least : 1 ≤ m.scan_time
  pub scan_time_most : m.scan_time ≤ 255
  pub no_tag_ab : m.no_tag_ab ≤ 255
  pub mask_least : 1 ≤ m.ant_mask
  pub mask_most : m.ant_mask ≤ 255
  pub interval_least : 20 * millisecond ≤ m.interval
  pub interval_most : m.interval ≤ 1000 * millisecond

adjusted_least :
    (v : ℕ) (d : Delta) (size least most : ℕ) → least ≤ most → least ≤ adjusted v d size least most
unfolding adjusted shift clamp_int
adjusted_least v down size least most h = ground (arith, h)
adjusted_least v up size least most h = ground (arith, h)

adjusted_most :
    (v : ℕ) (d : Delta) (size least most : ℕ) → least ≤ most → adjusted v d size least most ≤ most
unfolding adjusted shift clamp_int
adjusted_most v down size least most h = ground (arith, h)
adjusted_most v up size least most h = ground (arith, h)

pub flipped : (t : ℕ) → t ≤ 1 → bit_xor t 0x01 ≤ 1
flipped zero h = omega arith
flipped (suc zero) h = omega arith
flipped (suc (suc t)) h = absurd (omega arith)

byte_least : (n least : ℕ) → least ≤ n → n ≤ 255 → least ≤ n % 256
byte_least n least h h' = omega arith

byte_most : (n most : ℕ) → n ≤ most → most ≤ 255 → n % 256 ≤ most
byte_most n most h h' = omega arith

choose : {x y : Model} (c : Bool) → InRange x → InRange y → InRange (if c then x else y)
choose true p q = p
choose false p q = q

-- A parameter is set within its bounds.
q_kept : (m : Model) (n : ℕ) → InRange m → n ≤ 15 → InRange (record m { q_value = n })
q_kept m n v h = ground arith

session_kept : (m : Model) (n : ℕ) → InRange m → n ≤ 3 → InRange (record m { session = n })
session_kept m n v h = ground arith

target_kept : (m : Model) (n : ℕ) → InRange m → n ≤ 1 → InRange (record m { target = n })
target_kept m n v h = ground arith

scan_time_kept :
    (m : Model) (n : ℕ) → InRange m → 1 ≤ n → n ≤ 255 → InRange (record m { scan_time = n })
scan_time_kept m n v h h' = ground arith

no_tag_kept : (m : Model) (n : ℕ) → InRange m → n ≤ 255 → InRange (record m { no_tag_ab = n })
no_tag_kept m n v h = ground arith

columns_kept : (m : Model) (b : Bool) → InRange m → InRange (record m { show_phase_freq = b })
columns_kept m b v = ground arith

mask_kept : (m : Model) (n : ℕ) → InRange m → 1 ≤ n → n ≤ 255 → InRange (record m { ant_mask = n })
mask_kept m n v h h' = ground arith

interval_kept :
    (m : Model) (n : ℕ)
    → InRange m
    → 20 * millisecond ≤ n
    → n ≤ 1000 * millisecond
    → InRange (record m { interval = n })
interval_kept m n v h h' = ground arith

row_kept :
    (m : Model) (n : ℕ)
    → InRange m
    → n < inv_tune_count
    → InRange (record m { inventory_index = n })
row_kept m n v h = ground arith

adjust_inventory_setting-InRange :
    (d : Delta) (m : Model) → InRange m → InRange (adjust_inventory_setting d m)
unfolding adjust_inventory_setting
adjust_inventory_setting-InRange d m v =
    let i = m.inventory_index in
    let q = adjusted m.q_value d 1 0 15 in
    let q_most = adjusted_most m.q_value d 1 0 15 (omega arith) in
    let s = adjusted m.session d 1 0 3 in
    let s_most = adjusted_most m.session d 1 0 3 (omega arith) in
    let t = adjusted m.scan_time d 1 1 255 in
    let t_least = adjusted_least m.scan_time d 1 1 255 (omega arith) in
    let t_most = adjusted_most m.scan_time d 1 1 255 (omega arith) in
    let a = adjusted m.ant_mask d 1 1 255 in
    let a_least = adjusted_least m.ant_mask d 1 1 255 (omega arith) in
    let a_most = adjusted_most m.ant_mask d 1 1 255 (omega arith) in
    let p = adjusted (m.interval / millisecond) d 10 20 1000 in
    let p_least = adjusted_least (m.interval / millisecond) d 10 20 1000 (omega arith) in
    let p_most = adjusted_most (m.interval / millisecond) d 10 20 1000 (omega arith) in
    choose (nat_beq i 0) (q_kept m (q % 256) v (byte_most q 15 q_most (omega arith))) (
      choose (nat_beq i 1) (session_kept m (s % 256) v (byte_most s 3 s_most (omega arith))) (
        choose (nat_beq i 2) (target_kept m (bit_xor m.target 1) v (flipped m.target v.target)) (
          choose (nat_beq i 3)
            (scan_time_kept m (t % 256) v (byte_least t 1 t_least t_most)
              (byte_most t 255 t_most (omega arith)))
            (choose (nat_beq i 4)
              (no_tag_kept m (adjusted m.no_tag_ab d 1 0 255) v
                (adjusted_most m.no_tag_ab d 1 0 255 (omega arith)))
              (choose (nat_beq i 5) (columns_kept m (not m.show_phase_freq) v) (
                choose (nat_beq i 6)
                  (mask_kept m (a % 256) v (byte_least a 1 a_least a_most)
                    (byte_most a 255 a_most (omega arith)))
                  (choose (nat_beq i 7)
                    (interval_kept m (p * millisecond) v (omega (arith, p_least))
                      (omega (arith, p_most)))
                    v)))))))

apply_inventory_preset-InRange :
    (p : Preset) (m : Model) → InRange m → InRange (apply_inventory_preset p m)
unfolding apply_inventory_preset
apply_inventory_preset-InRange fast m v = ground arith
apply_inventory_preset-InRange balanced m v = ground arith
apply_inventory_preset-InRange long_range m v = ground arith

-- A result that keeps the ranges, as a record, so that a choice between results is found.
record Keeps (r : Model × List Bytes) : Type 0 where
  kept : InRange r.0

keeps : (m : Model) (sent : List Bytes) → InRange m → Keeps (m, sent)
keeps m sent v = record { kept = v }

either : {x y : Model × List Bytes} (c : Bool) → Keeps x → Keeps y → Keeps (if c then x else y)
either true p q = p
either false p q = q

set_scan_mask-InRange : (m : Model) → InRange m → InRange (set_scan_mask m).0
unfolding set_scan_mask
set_scan_mask-InRange m v = ground arith

set_scan_mask-Keeps : (m : Model) → InRange m → Keeps (set_scan_mask m)
set_scan_mask-Keeps m v = record { kept = set_scan_mask-InRange m v }

run_inventory_action-Keeps : (m : Model) → InRange m → Keeps (run_inventory_action m)
unfolding run_inventory_action
run_inventory_action-Keeps m v =
    let i = m.inventory_index in
    let raised =
      keeps (adjust_inventory_setting up m) [] (adjust_inventory_setting-InRange up m v) in
    let sent =
      if not m.is_connected
      then []
      else set_scan_time_command m.address m.scan_time
        ∷ (set_antenna_mux_command m.address m.ant_mask ∷ []) in
    either (nat_beq i 2 || nat_beq i 5) raised (
      either (nat_beq i 8) (keeps m sent v) (
        either (nat_beq i 9) (set_scan_mask-Keeps m v) (
          either (nat_beq i 10)
            (keeps (apply_inventory_preset fast m) [] (apply_inventory_preset-InRange fast m v))
            (either (nat_beq i 11)
              (keeps (apply_inventory_preset balanced m) []
                (apply_inventory_preset-InRange balanced m v))
              (either (nat_beq i 12)
                (keeps (apply_inventory_preset long_range m) []
                  (apply_inventory_preset-InRange long_range m v))
                raised)))))

pick_row-Keeps : (o : Option ℕ) (m : Model) → InRange m → Keeps (pick_row o m)
unfolding pick_row
pick_row-Keeps none m v = keeps m [] v
pick_row-Keeps (some i) m v =
    let picked = record m { inventory_index = i } in
    if_intro Keeps (ltb i inv_tune_count)
      (λ there.
        let w = row_kept m i v (ground (arith, there)) in
        either (leb 8 i) (run_inventory_action-Keeps picked w) (keeps picked [] w))
      (λ missing. keeps m [] v)

update_inventory_keys-Keeps :
    (key : Bytes) (m : Model) → InRange m → Keeps (update_inventory_keys key m)
unfolding update_inventory_keys
update_inventory_keys-Keeps key m v =
    let i = m.inventory_index in
    let above = (i + inv_tune_count - 1) % inv_tune_count in
    let below = (i + 1) % inv_tune_count in
    either (key == codes "up" || key == codes "k")
      (keeps (record m { inventory_index = above }) [] (row_kept m above v (omega arith)))
      (either (key == codes "down" || key == codes "j")
        (keeps (record m { inventory_index = below }) [] (row_kept m below v (omega arith)))
        (either (key == codes "left" || key == codes "h")
          (keeps (adjust_inventory_setting down m) [] (adjust_inventory_setting-InRange down m v))
          (either (key == codes "right" || key == codes "l")
            (keeps (adjust_inventory_setting up m) [] (adjust_inventory_setting-InRange up m v))
            (either (key == codes "enter") (run_inventory_action-Keeps m v)
              (pick_row-Keeps (parse_digit key) m v)))))

-- A key on the page, or a change of the connection.
pub data Event : Type 0 where
  key : Bytes → Event
  connection : Bool → Event

unfoldable pub run : List Event → Model → Model
unfolding update_inventory_keys
run [] m = m
run (key k ∷ es) m = run es (update_inventory_keys k m).0
run (connection b ∷ es) m = run es (record m { is_connected = b })

connection_kept : (m : Model) (b : Bool) → InRange m → InRange (record m { is_connected = b })
connection_kept m b v = ground arith

run-InRange : (es : List Event) (m : Model) → InRange m → InRange (run es m)
unfolding run
run-InRange [] m v = v
run-InRange (key k ∷ es) m v =
    run-InRange es (update_inventory_keys k m).0 (update_inventory_keys-Keeps k m v).kept
run-InRange (connection b ∷ es) m v =
    run-InRange es (record m { is_connected = b }) (connection_kept m b v)

-- From the values at the start, whatever keys are pressed and whenever the reader is connected, each
-- parameter stays in its range: Q at most 15, session at most 3, target 0 or 1, scan time and antenna
-- mask from 1 to 255, the count of rounds without a tag at most 255, the poll interval from 20 ms to
-- 1 s; and the row is one of the thirteen.
pub tune_history-InRange : (es : List Event) → InRange (run es new_model)
unfolding new_model
tune_history-InRange es = run-InRange es new_model (ground arith)
