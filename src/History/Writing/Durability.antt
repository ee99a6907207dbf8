-- ===== src/History/Writing/Durability.antt =====
-- The whole append: opening, the loop, `fsync` where it is asked for, and `close`.
use memory_atlas_server.Prelude.{
  ◌+◌, ◌≤◌, ◌≡◌, refl, ◌⊎◌, inl, inr, [], ◌∷◌, ◌++◌, true, false, arith, length, length-append, All,
  Bool-cases, Text, text_eq_iff, append-nil,
}
use memory_atlas_server.History.Writing.{
  Disk, Io, Appended, done, threw, blocked, disk_of, content, extend, write_all, finish,
  durable_history_writes_enabled, append_history_line,
}
use memory_atlas_server.History.Writing.Loop.{
  Holds, content-extend, write_all-done, write_all_total, write_all_prefix, IsProgress, progress,
}

abbrev pub newline : Text
newline = b'\n' ∷ []

-- Opening an existing file, or creating it, changes no content.
Holds-create :
    (f bytes : Text) (d d' : Disk) → Holds f bytes (extend f [] d) d' → Holds f bytes d d'
Holds-create f bytes d d' h g = ground (
  arith,
  h g,
  content-extend f g [] d,
  content-extend f f [] d,
  append-nil (content f d),
  text_eq_iff f g,
  text_eq_iff f f,
)

finish-done :
    (io : Io) (r : Appended) (d' : Disk)
    → finish io r ≡ done d'
    → (r ≡ done d')
      × (io.close_succeeds ≡ true)
      × ((durable_history_writes_enabled io.durable_writes ≡ false) ⊎ (io.fsync_succeeds ≡ true))
unfolding finish
finish-done io (done d) d' e = ground arith
finish-done io (threw d) d' e = cc
finish-done io (blocked d) d' e = cc

-- An append that returns has added the line and its newline at the end of that file, has changed
-- no other file, and has synced the file where durable writes are asked for.
pub append_history_line-done :
    (io : Io) (f line : Text) (d d' : Disk)
    → append_history_line io f line d ≡ done d'
    → Holds f (line ++ newline) d d'
      × ((durable_history_writes_enabled io.durable_writes ≡ false) ⊎ (io.fsync_succeeds ≡ true))
unfolding append_history_line
append_history_line-done io f line d d' e = elim (Bool-cases io.opens) [
  | inl opened ↦
      let finished : finish io (write_all f (line ++ newline) io.writes (extend f [] d)) ≡ done d' =
        ground arith in
      let (looped, _, synced) = finish-done io _ d' finished in
      (
        Holds-create f (line ++ newline) d d'
            (write_all-done f (line ++ newline) io.writes (extend f [] d) d' looped),
        synced,
      )
  | inr refused ↦ elim (clash (ground arith)) [ ]
]
  where
    clash : threw d ≡ done d' → ⊥
    clash p = cc

-- An append returns where the file opens, `close` succeeds, `fsync` succeeds or is not asked for,
-- and the results of `write` are counts of at least one or interruptions, with as many counts as
-- there are bytes to write.
pub append_history_line_total :
    (io : Io) (f line : Text) (d : Disk)
    → io.opens ≡ true
    → io.close_succeeds ≡ true
    → (durable_history_writes_enabled io.durable_writes ≡ false) ⊎ (io.fsync_succeeds ≡ true)
    → All IsProgress io.writes
    → length line + 1 ≤ progress io.writes
    → (d' : Disk) × (append_history_line io f line d ≡ done d')
unfolding append_history_line finish
append_history_line_total io f line d opened closed synced moves enough =
    let (d', looped) =
      write_all_total f (line ++ newline) io.writes (extend f [] d) moves
        (omega (arith, length-append line newline, enough)) in
    (d', ground arith)

-- However an append ends, the file has gained a prefix of the line with its newline, and no other
-- file has changed.
pub append_history_line_prefix :
    (io : Io) (f line : Text) (d : Disk)
    → (sent rest : Text) × (sent ++ rest ≡ line ++ newline)
      × Holds f sent d (disk_of (append_history_line io f line d))
unfolding append_history_line finish
append_history_line_prefix io f line d = elim (Bool-cases io.opens) [
  | inl opened ↦
      let (sent, rest, e, h) = write_all_prefix f (line ++ newline) io.writes (extend f [] d) in
      (sent, rest, e, λ g. ground (arith, Holds-create f sent d _ h g))
  | inr refused ↦
      ([], line ++ newline, refl, λ g. ground (arith, append-nil (content f d), text_eq_iff f g))
]
