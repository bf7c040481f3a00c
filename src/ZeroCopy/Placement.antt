-- ===== src/ZeroCopy/Placement.antt =====
-- VolumeZeroCopyRestoreTask: where the bytes of a session go.
use volume_backup.Prelude.{
  ℕ, ◌+◌, ◌-◌, ◌^◌, ◌≤◌, ◌<◌, ◌≡◌, refl, ap, arith, true, ◌&&◌, some, List, [], ◌∷◌, length, ltb,
  leb, if◌then◌else◌, Bool-cases, inl, inr,
}
use volume_backup.Task.{add64, add_statistics}
use volume_backup.Task.Statistics.{Statistics}
use volume_backup.Session.{SharedConfig}
use volume_backup.Pipeline.Writer.{Target}
use volume_backup.Raw.{Transfer, errno, moved}
use volume_backup.ZeroCopy.{
  Sending, send, next_len, at_most, send_session, perform_zero_copy_restore, first_call,
  with_statistics,
}

-- Every call moves some bytes.
abbrev pub AllMove : List Transfer → Type 0
AllMove [] = Unit {0}
AllMove (errno _ ∷ ts) = ⊥
AllMove (moved n ∷ ts) = (0 < n) × AllMove ts

record Sent (copy : Target) (session_max : ℕ) (s s' : Sending) : Type 0 where
  at_end : s'.offset ≡ session_max
  bytes :
      (x : ℕ)
      → s'.volume x ≡ (
          if leb s.position x && ltb x (s.position + (session_max - s.offset))
          then copy (s.offset + (x - s.position))
          else s.volume x)

-- One more call before the rest.
Sent-send :
    (copy : Target) (m len n : ℕ) (s s' : Sending)
    → n ≤ m - s.offset
    → s.offset ≤ m
    → m < 2 ^ 64
    → Sent copy m (send copy n (record s { len = len })) s'
    → Sent copy m s s'
unfolding send
Sent-send copy m len n s s' h l r v = record {
  at_end = v.at_end;
  bytes = λ x. ground (arith, v.bytes x, place x);
}
  where
    place :
        (x : ℕ)
        → s.position + n ≤ x
        → copy (s.offset + n + (x - (s.position + n))) ≡ copy (s.offset + (x - s.position))
    place x k = ap copy (omega arith)

send_offset :
    (copy : Target) (n : ℕ) (s : Sending)
    → s.offset + n < 2 ^ 64
    → (send copy n s).offset ≡ s.offset + n
unfolding send
send_offset copy n s h = omega arith

send_len : (copy : Target) (n : ℕ) (s : Sending) → (send copy n s).len ≡ s.len
unfolding send
send_len copy n s = refl

send_len-pos : (copy : Target) (n : ℕ) (s : Sending) → 0 < s.len → 0 < (send copy n s).len
unfolding send
send_len-pos copy n s h = h

send_all :
    (copy : Target) (session_max : ℕ) (ts : List Transfer) (s : Sending)
    → s.offset ≤ session_max
    → 0 < s.len
    → session_max + s.len < 2 ^ 64
    → AllMove ts
    → session_max ≤ s.offset + length ts
    → (s' : Sending) × (send_session copy session_max ts s ≡ some (true, s'))
      × Sent copy session_max s s'
unfolding send_session
send_all copy m [] s h l r a e =
    (s, ground arith, record { at_end = omega arith; bytes = λ x. ground arith })
send_all copy m (errno _ ∷ ts) s h l r a e = absurd a
send_all copy m (moved n ∷ ts) s h l r a e = elim (Bool-cases (ltb s.offset m)) [
  | inr done ↦ (s, rw done refl, record { at_end = ground arith; bytes = λ x. ground arith })
  | inl more ↦
      let len = next_len m s in
      let k = at_most len n in
      let bounds : (0 < len) × (len ≤ m - s.offset) × (len ≤ s.len) × (0 < k) × (k ≤ len) =
        ground arith in
      let asked : Sending = record s { len = len } in
      let there = send_offset copy k asked (omega (arith, bounds.1, bounds.4)) in
      let (s', done, v) =
        send_all copy m ts (send copy k asked) (omega (arith, there, bounds.1, bounds.4))
          (send_len-pos copy k asked bounds.0) (omega (arith, send_len copy k asked, bounds.2)) a.1
          (omega (arith, there, bounds.3)) in
      (
        s',
        rw more done,
        Sent-send copy m len k s s' (omega (arith, bounds.1, bounds.4)) h (omega arith) v,
      )
]

-- If every call moves some bytes, a session ends with success after at most as many calls as it has
-- bytes. Its bytes then stand at the START of the volume, whatever the offset of the session: the
-- volume is opened anew for each session, and its position is not set. All other bytes of the
-- volume are as before. The block size is positive, and the sums stay below 2^64.
pub zero_copy_placement :
    (copy : Target) (config : SharedConfig) (ts : List Transfer) (statistics : Statistics)
    (volume : Target)
    → 0 < config.block_size
    → config.session_offset + config.session_size + config.block_size < 2 ^ 64
    → AllMove ts
    → config.session_size ≤ length ts
    → (s : Sending) × (after : Statistics) × (perform_zero_copy_restore copy config ts statistics
          volume
        ≡ some (true, s, after))
      × ((x : ℕ)
          → s.volume x
            ≡ (if ltb x config.session_size then copy (config.session_offset + x) else volume x))
unfolding perform_zero_copy_restore
zero_copy_placement copy config ts statistics volume h r a e =
    let m = add64 config.session_offset config.session_size in
    let sum : m ≡ config.session_offset + config.session_size = omega (arith, r) in
    let (s, done, v) =
      send_all copy m ts (first_call config volume) (omega (arith, sum)) h (omega (arith, sum, r)) a
        (omega (arith, sum, e)) in
    (
      s,
      record {
        completed = add_statistics statistics.completed statistics.current;
        current = s.current;
      },
      ap (with_statistics statistics) done,
      λ x. ground (arith, v.bytes x, sum),
    )
