-- ===== src/Tests/History.antt =====
-- The history at concrete inputs.
use memory_atlas_server.History.Paths.{
  global_file, is_alnum, private_file, room_file, safe_char, safe_chars, safe_path_component,
}
use memory_atlas_server.History.Paths.Safety.{IsPlain, safe_path_component-IsPlain}
use memory_atlas_server.History.Reading.Lines.{pieces}
use memory_atlas_server.History.Store.{
  load_global_history, load_room_history, log_global_message, log_room_message, private_entry,
  public_entry,
}
use memory_atlas_server.History.Store.RoundTrip.{
  load_global_history-log_global_message, load_room_history-log_room_message, window,
}
use memory_atlas_server.History.Writing.{
  Disk, append_history_line, content, disk_of, done, durable_history_writes_enabled, extend, finish,
  write_all,
}
use memory_atlas_server.History.Writing.Durability.{
  append_history_line-done, append_history_line_total, newline,
}
use memory_atlas_server.History.Writing.Loop.{Holds}
use memory_atlas_server.Prelude.{
  All, [], arith, false, if◌then◌else◌, inr, insert, lookup, refl, text_eq, text_lt, true, utf8,
  ◌++◌, ◌≡◌, ◌≢◌, ◌⊎◌,
}
use memory_atlas_server.Tests.Data.{ann, den, ga, hi, history, io, pub_name}

load_global_history-log_global_message_example :
    load_global_history 1 (log_global_message io hi ann history)
    ≡ window 1 (load_global_history 0 history ++ pieces [] (public_entry io.timestamp hi ann))
unfolding append_history_line write_all finish durable_history_writes_enabled extend content insert
    lookup text_eq text_lt utf8 public_entry private_entry global_file private_file room_file
    safe_path_component safe_chars safe_char is_alnum
load_global_history-log_global_message_example =
    load_global_history-log_global_message io hi ann 1 history
      (disk_of (
        append_history_line io (global_file history.history_dir) (public_entry io.timestamp hi ann)
          []))
      refl refl refl

load_room_history-log_room_message_example :
    load_room_history pub_name 1 (log_room_message io den hi ann history)
    ≡ window 1 (
        if text_eq (room_file history.history_dir den) (room_file history.history_dir pub_name)
        then load_room_history den 0 history ++ pieces [] (public_entry io.timestamp hi ann)
        else load_room_history pub_name 0 history)
unfolding append_history_line write_all finish durable_history_writes_enabled extend content insert
    lookup text_eq text_lt utf8 public_entry private_entry global_file private_file room_file
    safe_path_component safe_chars safe_char is_alnum
load_room_history-log_room_message_example =
    load_room_history-log_room_message io den pub_name hi ann 1 history
      (disk_of (
        append_history_line io (room_file history.history_dir den)
          (public_entry io.timestamp hi ann) []))
      refl refl refl

append_history_line-done_example :
    Holds den (hi ++ newline) [] ((disk_of (append_history_line io den hi [])))
    × ((durable_history_writes_enabled io.durable_writes ≡ false) ⊎ (io.fsync_succeeds ≡ true))
unfolding append_history_line write_all finish durable_history_writes_enabled extend content insert
    lookup text_eq text_lt utf8 public_entry private_entry global_file private_file room_file
    safe_path_component safe_chars safe_char is_alnum
append_history_line-done_example =
    append_history_line-done io den hi [] (disk_of (append_history_line io den hi [])) refl

append_history_line_total_example : (d' : Disk) × (append_history_line io den hi [] ≡ done d')
append_history_line_total_example =
    append_history_line_total io den hi [] refl refl (inr refl)
      (
        _,
        (
          omega arith,
          (
            omega arith,
            (
              _,
              (
                omega arith,
                (omega arith, (omega arith, (omega arith, (omega arith, (omega arith, _))))),
              ),
            ),
          ),
        ),
      )
      (omega arith)

safe_path_component-IsPlain_example :
    All IsPlain (safe_path_component ga) × (safe_path_component ga ≢ [])
safe_path_component-IsPlain_example = safe_path_component-IsPlain ga
