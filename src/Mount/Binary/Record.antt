-- ===== src/Mount/Binary/Record.antt =====
-- src/native/linux/LinuxDeviceMapperMountProvider.cpp, `Mount`: the mount record is read where it is
-- to be saved.
use volume_backup.Prelude.{
  suc, ◌≡◌, refl, ◌∙◌, ap, Bool, true, false, Option, none, some, [], ◌∷◌, ◌++◌, Bool-cases, inl,
  inr,
}
use volume_backup.Text.{Text}
use volume_backup.Mount.Kernel.{System, MountEntry, SavedRecord, M, ◌>>=◌, if_done, if_some, pure}
use volume_backup.Mount.Keeps.{Keeps, keeps_rules}
use volume_backup.Mount.Steady.{Steady, rollback-Steady, prepare_device-Steady}
use volume_backup.Mount.Points.{mount}
use volume_backup.Mount.Binary.{
  DmMountProvider, prepare_device, roll_back, load_record, mount_record_path, entry_of, mount_copy,
}

roll_back-Steady : Steady roll_back
unfolding roll_back
roll_back-Steady = search (keeps_rules, rollback-Steady) depth 30

roll_back-false : (s : System) → (roll_back s).0 ≡ false
unfolding roll_back ◌>>=◌
roll_back-false s = refl

abbrev records : System → Text → Option SavedRecord
records s = s.saved

Keeps-records : {A : Type 0} (m : M A) → Steady m → Keeps records m
Keeps-records m k = record { at = λ s. ap (λ x. x.1) (k.at s) }

prepare_device-records : (p : DmMountProvider) → Keeps records (prepare_device p)
prepare_device-records p = Keeps-records (prepare_device p) (prepare_device-Steady p)

roll_back-records : Keeps records roll_back
roll_back-records = Keeps-records roll_back roll_back-Steady

mount-Keeps : (e : MountEntry) → Keeps records (mount e)
unfolding mount
mount-Keeps e = search keeps_rules depth 30

load_record-Keeps : (path : Text) → Keeps records (load_record path)
unfolding load_record
load_record-Keeps path = search keeps_rules depth 30

-- The mount records that can be read are the same after a mount, whatever happens.
pub mount_copy-records : (p : DmMountProvider) → Keeps records (mount_copy p)
unfolding mount_copy
mount_copy-records p =
    search (keeps_rules, prepare_device-records, roll_back-records, mount-Keeps, load_record-Keeps)
      depth 30

-- `mount` has put the entry at the end of the mounts.
mount-done :
    (e : MountEntry) (s : System)
    → (s.replies 0).done ≡ true
    → mount e s
      ≡ (true, record s { replies = λ n. s.replies (suc n); mounts = s.mounts ++ (e ∷ []) })
unfolding mount ◌>>=◌ if_done
mount-done e s done = rw done refl

load_record-none :
    (path : Text) (s : System)
    → s.saved path ≡ none
    → load_record path s ≡ (none, record s { replies = λ n. s.replies (suc n) })
unfolding load_record ◌>>=◌
load_record-none path s missing = elim (Bool-cases ((s.replies 0).done)) [
  | inl opened ↦ rw opened (rw missing refl)
  | inr refused ↦ rw refused refl
]

-- What `Mount` does after the call that mounts the device.
abbrev after_mount : DmMountProvider → Bool → M Bool
after_mount p mounted =
    if_done mounted roll_back
      do loaded ← load_record (mount_record_path p); if_some loaded roll_back λ _. pure true

after_mount-true :
    (p : DmMountProvider) (s : System)
    → s.saved (mount_record_path p) ≡ none
    → after_mount p true s ≡ roll_back (record s { replies = λ n. s.replies (suc n) })
unfolding ◌>>=◌ if_done if_some
after_mount-true p s missing = rw (load_record-none (mount_record_path p) s missing) refl

after_mount-false :
    (p : DmMountProvider) (mounted : Bool) (s : System)
    → s.saved (mount_record_path p) ≡ none
    → (after_mount p mounted s).0 ≡ false
unfolding if_done
after_mount-false p false s missing = roll_back-false s
after_mount-false p true s missing = rw (after_mount-true p s missing) (roll_back-false _)

after_prepare : DmMountProvider → Option Text → M Bool
after_prepare p device =
    if_some device roll_back λ path. do mounted ← mount (entry_of p path); after_mount p mounted

mount_copy-step :
    (p : DmMountProvider) (s : System)
    → mount_copy p s ≡ after_prepare p (prepare_device p s).0 (prepare_device p s).1
unfolding mount_copy ◌>>=◌ after_prepare
mount_copy-step p s = refl

after_prepare-false :
    (p : DmMountProvider) (device : Option Text) (s : System)
    → s.saved (mount_record_path p) ≡ none
    → (after_prepare p device s).0 ≡ false
unfolding after_prepare if_some ◌>>=◌
after_prepare-false p none s missing = roll_back-false s
after_prepare-false p (some path) s missing =
    after_mount-false p (mount (entry_of p path) s).0 (mount (entry_of p path) s).1
      (ap (λ f. f (mount_record_path p)) ((mount-Keeps (entry_of p path)).at s) ∙ missing)

after_prepare-mounts :
    (p : DmMountProvider) (path : Text) (s : System)
    → s.saved (mount_record_path p) ≡ none
    → (s.replies 0).done ≡ true
    → (after_prepare p (some path) s).1.mounts ≡ s.mounts ++ (entry_of p path ∷ [])
unfolding after_prepare if_some ◌>>=◌
after_prepare-mounts p path s missing done = rw (mount-done (entry_of p path) s done) (
    rw
      (after_mount-true p
        (record s { replies = λ n. s.replies (suc n); mounts = s.mounts ++ (entry_of p path ∷ []) })
        missing)
      (ap (λ x. x.0) (roll_back-Steady.at _)))

still_missing :
    (p : DmMountProvider) (s : System)
    → s.saved (mount_record_path p) ≡ none
    → (prepare_device p s).1.saved (mount_record_path p) ≡ none
still_missing p s missing =
    ap (λ x. x.1 (mount_record_path p)) ((prepare_device-Steady p).at s) ∙ missing

-- A copy without a mount record that can be read is never mounted with success, whatever the
-- answers of the system; and it gets no record, so that it is the same at the next try.
pub mount_needs_record :
    (p : DmMountProvider) (s : System)
    → s.saved (mount_record_path p) ≡ none
    → ((mount_copy p s).0 ≡ false) × ((mount_copy p s).1.saved ≡ s.saved)
mount_needs_record p s missing =
    let still = still_missing p s missing in
    (
      rw (mount_copy-step p s)
          (after_prepare-false p (prepare_device p s).0 (prepare_device p s).1 still),
      (mount_copy-records p).at s,
    )

-- When the device of such a copy is made and the call that mounts it succeeds, the mount is
-- reported as failed and rolled back, but its entry stays in the mount table.
pub failed_mount_stays :
    (p : DmMountProvider) (s : System) (path : Text)
    → s.saved (mount_record_path p) ≡ none
    → (prepare_device p s).0 ≡ some path
    → ((prepare_device p s).1.replies 0).done ≡ true
    → ((mount_copy p s).0 ≡ false)
      × ((mount_copy p s).1.mounts ≡ s.mounts ++ (entry_of p path ∷ []))
failed_mount_stays p s path missing made done =
    let same_mounts = ap (λ x. x.0) ((prepare_device-Steady p).at s) in
    (
      (mount_needs_record p s missing).0,
      rw (mount_copy-step p s ∙ ap (λ d. after_prepare p d (prepare_device p s).1) made) (
          after_prepare-mounts p path (prepare_device p s).1 (still_missing p s missing) done
          ∙ ap (λ es. es ++ (entry_of p path ∷ [])) same_mounts),
    )
