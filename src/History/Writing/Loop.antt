-- ===== src/History/Writing/Loop.antt =====
-- The append loop: short and interrupted writes neither lose nor repeat a byte.
use memory_atlas_server.Prelude.{
  ℕ, zero, suc, ◌≤◌, ◌≡◌, refl, ap, ◌∙◌, List, [], ◌∷◌, ◌++◌, arith, length, take, drop, take-drop,
  length-drop, append_assoc, append-nil, if◌then◌else◌, Text, text_eq, text_eq_iff, text_eq_refl,
  lookup-insert, All,
}
use memory_atlas_server.History.Writing.{
  WriteResult, written, interrupted, failed, Disk, done, disk_of, content, extend, write_all,
}

pub content-extend :
    (f g bytes : Text) (d : Disk)
    → content g (extend f bytes d) ≡ (if text_eq f g then content f d ++ bytes else content g d)
unfolding content extend
content-extend f g bytes d = ground (arith, lookup-insert f g (content f d ++ bytes) d)

-- What the file holds, once a call has written `bytes` and the state was `d`.
abbrev pub Holds : Text → Text → Disk → Disk → Type 0
Holds f bytes d d' =
    (g : Text) → content g d' ≡ (if text_eq f g then content f d ++ bytes else content g d)

Holds-append :
    (f first rest bytes : Text) (d d' : Disk)
    → first ++ rest ≡ bytes
    → Holds f rest (extend f first d) d'
    → Holds f bytes d d'
Holds-append f first rest bytes d d' e h g = ground (
  arith,
  h g,
  content-extend f g first d,
  content-extend f f first d,
  text_eq_refl f,
  append_assoc (content f d) first rest,
)

Holds-nil : (f : Text) (d : Disk) → Holds f [] d d
Holds-nil f d g = ground (arith, append-nil (content f d), text_eq_iff f g)

pub write_all-done :
    (f cursor : Text) (rs : List WriteResult) (d d' : Disk)
    → write_all f cursor rs d ≡ done d'
    → Holds f cursor d d'
unfolding write_all
write_all-done f [] rs d d' e g = ground (arith, Holds-nil f d g)
write_all-done f (c ∷ cursor) [] d d' e g = cc
write_all-done f (c ∷ cursor) (interrupted ∷ rs) d d' e g =
    write_all-done f (c ∷ cursor) rs d d' e g
write_all-done f (c ∷ cursor) (failed ∷ rs) d d' e g = cc
write_all-done f (c ∷ cursor) (written zero ∷ rs) d d' e g = cc
write_all-done f (c ∷ cursor) (written (suc n) ∷ rs) d d' e g =
    Holds-append f (take (suc n) (c ∷ cursor)) (drop n cursor) (c ∷ cursor) d d'
      (take-drop (suc n) (c ∷ cursor)) (write_all-done f (drop n cursor) rs _ d' e) g

-- Each result makes progress or is a retry.
abbrev pub IsProgress : WriteResult → Type 0
IsProgress (written n) = 1 ≤ n
IsProgress interrupted = Unit
IsProgress failed = ⊥

abbrev pub progress : List WriteResult → ℕ
progress [] = 0
progress (written n ∷ rs) = suc (progress rs)
progress (interrupted ∷ rs) = progress rs
progress (failed ∷ rs) = progress rs

-- As many writes as there are bytes end the loop, whatever interrupts them.
pub write_all_total :
    (f cursor : Text) (rs : List WriteResult) (d : Disk)
    → All IsProgress rs
    → length cursor ≤ progress rs
    → (d' : Disk) × (write_all f cursor rs d ≡ done d')
unfolding write_all
write_all_total f [] rs d h k = (d, refl)
write_all_total f (c ∷ cursor) [] d h k = elim k [ ]
write_all_total f (c ∷ cursor) (interrupted ∷ rs) d h k = write_all_total f (c ∷ cursor) rs d h.1 k
write_all_total f (c ∷ cursor) (failed ∷ rs) d h k = absurd h.0
write_all_total f (c ∷ cursor) (written zero ∷ rs) d h k = elim h.0 [ ]
write_all_total f (c ∷ cursor) (written (suc n) ∷ rs) d h k =
    write_all_total f (drop n cursor) rs _ h.1 (omega (arith, length-drop n cursor))

-- However the loop ends, the file has gained a prefix of the payload and nothing else.
pub write_all_prefix :
    (f cursor : Text) (rs : List WriteResult) (d : Disk)
    → (sent rest : Text) × (sent ++ rest ≡ cursor)
      × Holds f sent d (disk_of (write_all f cursor rs d))
unfolding write_all
write_all_prefix f [] rs d = ([], [], refl, Holds-nil f d)
write_all_prefix f (c ∷ cursor) [] d = ([], c ∷ cursor, refl, Holds-nil f d)
write_all_prefix f (c ∷ cursor) (interrupted ∷ rs) d = write_all_prefix f (c ∷ cursor) rs d
write_all_prefix f (c ∷ cursor) (failed ∷ rs) d = ([], c ∷ cursor, refl, Holds-nil f d)
write_all_prefix f (c ∷ cursor) (written zero ∷ rs) d = ([], c ∷ cursor, refl, Holds-nil f d)
write_all_prefix f (c ∷ cursor) (written (suc n) ∷ rs) d =
    let (sent, rest, e, h) =
      write_all_prefix f (drop n cursor) rs (extend f (take (suc n) (c ∷ cursor)) d) in
    (
      take (suc n) (c ∷ cursor) ++ sent,
      rest,
      append_assoc (take (suc n) (c ∷ cursor)) sent rest
          ∙ (ap (◌++◌ (take (suc n) (c ∷ cursor))) e ∙ take-drop (suc n) (c ∷ cursor)),
      Holds-append f (take (suc n) (c ∷ cursor)) sent _ d _ refl h,
    )
