-- ===== src/ZeroCopy/Thread/Overlay.antt =====
-- VolumeZeroCopyRestoreTask: what a restore leaves on the volume.
use volume_backup.Prelude.{
  ℕ, ◌+◌, ◌^◌, ◌≤◌, ◌<◌, ◌≡◌, refl, ◌∙◌, sym, ap, subst, fun_ext, Bool, true, false, some, List, [],
  ◌∷◌, length, ltb, if◌then◌else◌, arith,
}
use volume_backup.Text.{Text}
use volume_backup.Task.{succeed}
use volume_backup.Session.{SharedConfig}
use volume_backup.Pipeline.Writer.{Target}
use volume_backup.Task.Statistics.{Statistics}
use volume_backup.ZeroCopy.{Sending, perform_zero_copy_restore}
use volume_backup.ZeroCopy.Placement.{AllMove, zero_copy_placement}
use volume_backup.ZeroCopy.Thread.{
  ZeroCopyTask, SendCourse, set_status, after_send, can_open, pop_session, run_zero_copy,
  zero_copy_thread_func,
}

-- Every session is opened and sent, with no abort before it and no failed or empty call.
abbrev pub AllSent : List SharedConfig → List SendCourse → Type 0
AllSent [] cs = Unit {0}
AllSent (s ∷ queue) [] = ⊥
AllSent (s ∷ queue) (c ∷ cs) =
    (c.abort_flag ≡ false)
    × (can_open s ≡ true)
    × (c.reader_ok ≡ true)
    × (c.writer_ok ≡ true)
    × AllMove c.calls
    × (s.session_size ≤ length c.calls)
    × AllSent queue cs

-- The sessions have blocks, and their sums fit 64 bits.
abbrev pub AllFit : List SharedConfig → Type 0
AllFit [] = Unit {0}
AllFit (s ∷ queue) =
    (0 < s.block_size) × (s.session_offset + s.session_size + s.block_size < 2 ^ 64) × AllFit queue

-- Each session in turn, laid over the start of the volume.
unfoldable pub overlay : (Text → Target) → List SharedConfig → Target → Target
overlay files [] volume x = volume x
overlay files (s ∷ queue) volume x =
    overlay files queue
      (λ y.
        if ltb y s.session_size then files s.copy_file_path (s.session_offset + y) else volume y)
      x

abbrev sent_task : List SharedConfig → ZeroCopyTask → Sending → Statistics → ZeroCopyTask
sent_task queue t s' after = record (pop_session queue t) { statistics = after; volume = s'.volume }

-- A session that is opened and sent.
run-session :
    (files : Text → Target) (s : SharedConfig) (queue : List SharedConfig) (c : SendCourse)
    (cs : List SendCourse) (t : ZeroCopyTask) (s' : Sending) (after : Statistics)
    → c.abort_flag ≡ false
    → can_open s ≡ true
    → c.reader_ok ≡ true
    → c.writer_ok ≡ true
    → perform_zero_copy_restore (files s.copy_file_path) s c.calls t.statistics t.volume
      ≡ some (true, s', after)
    → run_zero_copy files (s ∷ queue) (c ∷ cs) t
      ≡ run_zero_copy files queue cs (sent_task queue t s' after)
unfolding run_zero_copy after_send
run-session files s queue c cs t s' after a o r w e = rw (a, o, r, w, e) refl

-- The thread succeeds, and the volume is the overlay.
abbrev Laid : (Text → Target) → List SharedConfig → Target → Bool × ZeroCopyTask → Type 0
Laid files queue volume r =
    (r.0 ≡ true) × (r.1.task.status ≡ succeed) × (r.1.volume ≡ overlay files queue volume)

run-Laid :
    (files : Text → Target) (queue : List SharedConfig) (cs : List SendCourse) (t : ZeroCopyTask)
    → AllSent queue cs
    → AllFit queue
    → Laid files queue t.volume (run_zero_copy files queue cs t)
run-Laid files [] cs t sent fit = unfold run_zero_copy set_status overlay in (refl, refl, refl)
run-Laid files (s ∷ queue) [] t sent fit = absurd sent
run-Laid files (s ∷ queue) (c ∷ cs) t (a, o, r, w, moves, enough, sent) (pos, room, fit) =
    let (s', after, e, bytes) =
      zero_copy_placement (files s.copy_file_path) s c.calls t.statistics t.volume pos room moves
        enough in
    let (done, success, laid) = run-Laid files queue cs (sent_task queue t s' after) sent fit in
    subst (Laid files (s ∷ queue) t.volume)
      (sym (run-session files s queue c cs t s' after a o r w e))
      (done, success, laid ∙ ap (overlay files queue) (fun_ext bytes) ∙ unfold overlay in refl)

-- Bytes behind the longest session.
abbrev pub AllWithin : ℕ → List SharedConfig → Type 0
AllWithin n [] = Unit {0}
AllWithin n (s ∷ queue) = (s.session_size ≤ n) × AllWithin n queue

overlay_beyond :
    (files : Text → Target) (queue : List SharedConfig) (n : ℕ) (volume : Target) (x : ℕ)
    → AllWithin n queue
    → n ≤ x
    → overlay files queue volume x ≡ volume x
unfolding overlay
overlay_beyond files [] n volume x within h = refl
overlay_beyond files (s ∷ queue) n volume x within h =
    overlay_beyond files queue n _ x within.1 h ∙ ground (arith, within.0, h)

-- If every session can be opened and no call of `sendfile` fails or moves nothing, a zero copy
-- restore ends with success after enough calls. Its sessions have then been laid over the START of
-- the volume, one over the other, each with its own part of the copy: byte x of the volume is that
-- of the last session longer than x. So a volume that is longer than its longest session is as
-- before behind that length, while the task has succeeded. Block sizes are positive, and the sums
-- fit 64 bits.
pub zero_copy_overlay :
    (files : Text → Target) (cs : List SendCourse) (t : ZeroCopyTask) (longest : ℕ)
    → AllSent t.session_queue cs
    → AllFit t.session_queue
    → AllWithin longest t.session_queue
    → let r = zero_copy_thread_func files cs t in
      (r.0 ≡ true)
      × (r.1.task.status ≡ succeed)
      × ((x : ℕ) → r.1.volume x ≡ overlay files t.session_queue t.volume x)
      × ((x : ℕ) → longest ≤ x → r.1.volume x ≡ t.volume x)
unfolding zero_copy_thread_func
zero_copy_overlay files cs t longest sent fit within =
    let (done, success, laid) = run-Laid files t.session_queue cs t sent fit in
    (
      done,
      success,
      λ x i. laid i x,
      λ x h. (λ i. laid i x) ∙ overlay_beyond files t.session_queue longest t.volume x within h,
    )

-- A zero copy restore of one session that begins at offset 0 and is all of the volume makes the
-- volume's bytes those of the copy file, on the same conditions.
pub zero_copy_single :
    (files : Text → Target) (c : SendCourse) (t : ZeroCopyTask) (s : SharedConfig)
    → t.session_queue ≡ s ∷ []
    → s.session_offset ≡ 0
    → AllSent (s ∷ []) (c ∷ [])
    → AllFit (s ∷ [])
    → let r = zero_copy_thread_func files (c ∷ []) t in
      (r.1.task.status ≡ succeed)
      × ((x : ℕ) → x < s.session_size → r.1.volume x ≡ files s.copy_file_path x)
unfolding zero_copy_thread_func overlay
zero_copy_single files c t s queue start sent fit =
    let (done, success, laid) = run-Laid files (s ∷ []) (c ∷ []) t sent fit in
    subst
      (λ q.
        ((run_zero_copy files q (c ∷ []) t).1.task.status ≡ succeed)
        × ((x : ℕ)
            → x < s.session_size
            → (run_zero_copy files q (c ∷ []) t).1.volume x ≡ files s.copy_file_path x))
      (sym queue) (success, λ x h. (λ i. laid i x) ∙ ground (arith, start, h))
