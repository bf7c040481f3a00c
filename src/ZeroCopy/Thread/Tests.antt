-- ===== src/ZeroCopy/Thread/Tests.antt =====
-- A zero copy restore of two sessions, of two and three bytes.
use volume_backup.Prelude.{ℕ, ◌≤◌, ◌<◌, ◌≡◌, refl, true, false, List, [], ◌∷◌, arith}
use volume_backup.Task.{running, succeed}
use volume_backup.Session.{SharedConfig}
use volume_backup.Raw.{moved, open_copy}
use volume_backup.Pipeline.Tests.{config}
use volume_backup.Backup.Thread.Tests.{task_with}
use volume_backup.ZeroCopy.Tests.{none_yet}
use volume_backup.ZeroCopy.Thread.{ZeroCopyTask, SendCourse, zero_copy_thread_func}
use volume_backup.ZeroCopy.Thread.Overlay.{AllSent, overlay, zero_copy_overlay, zero_copy_single}

abbrev part : ℕ → ℕ → SharedConfig
part offset size = record config { session_offset = offset; session_size = size }

abbrev sends : SendCourse
sends = record {
  abort_flag = false;
  reader_ok = true;
  writer_ok = true;
  calls = moved 1 ∷ moved 1 ∷ moved 1 ∷ [];
}

abbrev small_task : List SharedConfig → ZeroCopyTask
small_task queue = record {
  task = task_with running;
  statistics = none_yet;
  session_queue = queue;
  volume = λ _. 7;
}

abbrev two_parts : List SharedConfig
two_parts = part 0 2 ∷ part 2 3 ∷ []

both_sent : AllSent two_parts (sends ∷ sends ∷ [])
unfolding open_copy
both_sent = (
  refl,
  refl,
  refl,
  refl,
  omega arith,
  omega arith,
  (refl, refl, refl, refl, omega arith, omega arith, tt),
)

zero_copy_overlay_example :
    let r = zero_copy_thread_func (λ _ x. x) (sends ∷ sends ∷ []) (small_task two_parts) in
    (r.0 ≡ true)
    × (r.1.task.status ≡ succeed)
    × ((x : ℕ) → r.1.volume x ≡ overlay (λ _ x. x) two_parts (λ _. 7) x)
    × ((x : ℕ) → 3 ≤ x → r.1.volume x ≡ 7)
zero_copy_overlay_example =
    zero_copy_overlay (λ _ x. x) (sends ∷ sends ∷ []) (small_task two_parts) 3 both_sent
      (omega arith) (omega arith)

-- The byte at 0 is that of the copy at 2, the offset of the last session.
first_byte :
    (zero_copy_thread_func (λ _ x. x) (sends ∷ sends ∷ []) (small_task two_parts)).1.volume 0 ≡ 2
unfolding overlay
first_byte = zero_copy_overlay_example.2 0

one_sent : AllSent (part 0 3 ∷ []) (sends ∷ [])
unfolding open_copy
one_sent = (refl, refl, refl, refl, omega arith, omega arith, tt)

zero_copy_single_example :
    let r = zero_copy_thread_func (λ _ x. x) (sends ∷ []) (small_task (part 0 3 ∷ [])) in
    (r.1.task.status ≡ succeed) × ((x : ℕ) → x < 3 → r.1.volume x ≡ x)
zero_copy_single_example =
    zero_copy_single (λ _ x. x) sends (small_task (part 0 3 ∷ [])) (part 0 3) refl refl one_sent
      (omega arith)
