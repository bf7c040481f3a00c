-- ===== src/Mount/Points/Everything.antt =====
-- src/native/linux/LinuxMountUtils.cpp: `UmountAll` does not look at its device.
use volume_backup.Prelude.{
  ℕ, zero, suc, ◌+◌, ◌<◌, ◌≡◌, refl, ◌∙◌, sym, ap, true, List, [], ◌∷◌, arith, if◌then◌else◌,
}
use volume_backup.Text.{Text}
use volume_backup.Text.Search.{same, same_refl, same→eq}
use volume_backup.Mount.Kernel.{System, MountEntry, ◌>>=◌, if_done, pure}
use volume_backup.Mount.Points.{
  mounted_at, remove_last, umount2, umount_each, umount_tries, umount_all, get_all_mounts,
}

-- No call fails from here on.
abbrev pub AllDone : System → Type 0
AllDone s = (n : ℕ) → (s.replies n).done ≡ true

-- How many mounts there are at a directory.
count : Text → List MountEntry → ℕ
count dir [] = 0
count dir (e ∷ es) = (if same e.mount_target_path dir then 1 else 0) + count dir es

mounted_at_of_count :
    (dir : Text) (es : List MountEntry) → 0 < count dir es → mounted_at dir es ≡ true
unfolding count mounted_at
mounted_at_of_count dir [] pos = absurd (omega arith)
mounted_at_of_count dir (e ∷ es) pos = ground (arith, mounted_at_of_count dir es)

same_head : (s t d : Text) → same s t ≡ true → same s d ≡ same t d
same_head s t d e = ap (λ x. same x d) (same→eq s t e)

count-remove_last :
    (d dir : Text) (es : List MountEntry)
    → mounted_at dir es ≡ true
    → (if same dir d then 1 else 0) + count d (remove_last dir es) ≡ count d es
unfolding count mounted_at remove_last
count-remove_last d dir [] there = cc
count-remove_last d dir (e ∷ es) there =
    ground (arith, count-remove_last d dir es, same_head e.mount_target_path dir d)

empty_of_count : (es : List MountEntry) → ((dir : Text) → count dir es ≡ 0) → es ≡ []
unfolding count
empty_of_count [] none = refl
empty_of_count (e ∷ es) none =
    ground (arith, none e.mount_target_path, same_refl e.mount_target_path)

umount2-at :
    (dir : Text) (s : System)
    → (s.replies 0).done ≡ true
    → mounted_at dir s.mounts ≡ true
    → (umount2 dir s).1
      ≡ record s { replies = λ n. s.replies (suc n); mounts = remove_last dir s.mounts }
unfolding ◌>>=◌ if_done
umount2-at dir s done there = rw (done, there) refl

umount_each-step :
    (e : MountEntry) (es : List MountEntry) (s : System)
    → umount_each (e ∷ es) s ≡ umount_each es (umount2 e.mount_target_path s).1
unfolding umount_each ◌>>=◌
umount_each-step e es s = refl

umount_each-nil : (s : System) → (umount_each [] s).1 ≡ s
unfolding umount_each pure
umount_each-nil s = refl

-- Entries that stand for all mounts are unmounted one by one until none is left.
umount_each-empties :
    (es : List MountEntry) (s : System)
    → AllDone s
    → ((d : Text) → count d es ≡ count d s.mounts)
    → ((umount_each es s).1.mounts ≡ []) × AllDone (umount_each es s).1
unfolding count
umount_each-empties [] s done counts =
    rw (umount_each-nil s) (empty_of_count s.mounts (λ d. sym (counts d)), done)
umount_each-empties (e ∷ es) s done counts =
    let dir = e.mount_target_path in
    let there : mounted_at dir s.mounts ≡ true =
      mounted_at_of_count dir s.mounts (ground (arith, counts dir, same_refl dir)) in
    rw (umount_each-step e es s ∙ ap (umount_each es) (umount2-at dir s (done 0) there)) (
      umount_each-empties es
        (record s { replies = λ n. s.replies (suc n); mounts = remove_last dir s.mounts })
        (λ n. done (suc n)) (λ d. omega (arith, counts d, count-remove_last d dir s.mounts there)))

abbrev shift : System → System
shift s = record s { replies = λ n. s.replies (suc n) }

get_all_mounts-done :
    (device_path : Text) (s : System)
    → (s.replies 0).done ≡ true
    → get_all_mounts device_path s ≡ (s.mounts, shift s)
unfolding get_all_mounts ◌>>=◌ if_done
get_all_mounts-done device_path s done = rw done refl

-- `umount_tries` from its first round on.
tries_round :
    (tries : ℕ) (device_path : Text) (e : MountEntry) (es : List MountEntry) (s : System)
    → umount_tries (suc tries) device_path (e ∷ es) s ≡ (
        let t = (umount_each (e ∷ es) s).1 in
        umount_tries tries device_path
          (get_all_mounts device_path t).0
          (get_all_mounts device_path t).1)
unfolding umount_tries ◌>>=◌
tries_round tries device_path e es s = refl

umount_tries-nil :
    (tries : ℕ) (device_path : Text) (s : System) → umount_tries tries device_path [] s ≡ (true, s)
unfolding umount_tries pure
umount_tries-nil zero device_path s = refl
umount_tries-nil (suc tries) device_path s = refl

umount_tries-empties :
    (tries : ℕ) (device_path : Text) (es : List MountEntry) (s : System)
    → AllDone s
    → s.mounts ≡ es
    → ((umount_tries (suc tries) device_path es s).0 ≡ true)
      × ((umount_tries (suc tries) device_path es s).1.mounts ≡ [])
umount_tries-empties tries device_path [] s done all =
    rw (umount_tries-nil (suc tries) device_path s) (refl, all)
umount_tries-empties tries device_path (e ∷ es) s done all =
    let t = (umount_each (e ∷ es) s).1 in
    let (none, done_t) = umount_each-empties (e ∷ es) s done (λ d. ap (count d) (sym all)) in
    rw
      (
        tries_round tries device_path e es s,
        get_all_mounts-done device_path t (done_t 0),
        none,
        umount_tries-nil tries device_path _,
      )
      (refl, refl)

umount_all-step :
    (device_path : Text) (s : System)
    → umount_all device_path s
      ≡ umount_tries 3 device_path (get_all_mounts device_path s).0 (get_all_mounts device_path s).1
unfolding umount_all ◌>>=◌
umount_all-step device_path s = refl

-- Where no call fails, `UmountAll` unmounts everything that is mounted in the system, whatever its
-- device, and whatever device it is called for.
pub umount_all_everything :
    (device_path : Text) (s : System)
    → AllDone s
    → ((umount_all device_path s).0 ≡ true) × ((umount_all device_path s).1.mounts ≡ [])
umount_all_everything device_path s done =
    rw (umount_all-step device_path s, get_all_mounts-done device_path s (done 0))
      (umount_tries-empties 2 device_path s.mounts (shift s) (λ n. done (suc n)) refl)
