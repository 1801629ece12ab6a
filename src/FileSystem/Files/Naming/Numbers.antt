-- ===== src/FileSystem/Files/Naming/Numbers.antt =====
-- The number that open gives to a file.
use codal_microbit_v.Base.{
  ℕ, zero, suc, ◌+◌, ◌<◌, ◌≡◌, refl, ap, ◌∙◌, arith, Bool, true, false, Option, none, some, List,
  [], ◌∷◌, length, ◌==◌, if◌then◌else◌, Bool-cases, ◌⊎◌, inl, inr, ==→eq, err, not_supported,
}
use codal_microbit_v.Flash.{Chip}
use codal_microbit_v.FileSystem.{FileSystem, FileDescriptor}
use codal_microbit_v.FileSystem.Files.{get_file_descriptor}
use codal_microbit_v.FileSystem.Files.Descriptors.{count_taken}
use codal_microbit_v.FileSystem.Files.Naming.{
  Scan, open_already, taken, vacant, scan, choose_id, add_descriptor, open_existing,
}

-- Whether some open file has its entry at `dirent`.
abbrev pub is_open : List FileDescriptor → ℕ → Bool
is_open [] dirent = false
is_open (f ∷ fs) dirent = if f.dirent == dirent then true else is_open fs dirent

-- What a walk tells of the open files.
Tells : List FileDescriptor → ℕ → ℕ → Scan → Type 0
Tells files dirent id open_already = is_open files dirent ≡ true
Tells files dirent id taken = (f : FileDescriptor) × (get_file_descriptor files id ≡ some f)
Tells files dirent id vacant =
    (is_open files dirent ≡ false) × (get_file_descriptor files id ≡ none)

scan-Tells :
    (files : List FileDescriptor) (dirent id : ℕ) → Tells files dirent id (scan files dirent id)
unfolding scan Tells get_file_descriptor
scan-Tells [] dirent id = (refl, refl)
scan-Tells (f ∷ fs) dirent id = elim (Bool-cases (f.dirent == dirent)) [
  | inl e ↦ rw (e, e) refl
  | inr n ↦ elim (Bool-cases (f.id == id)) [
    | inl e ↦ rw (n, e) (f, rw e refl)
    | inr m ↦ rw (n, m) (scan_on (scan fs dirent id) n m (scan-Tells fs dirent id))
  ]
]
  where
    scan_on :
        (s : Scan)
        → (f.dirent == dirent) ≡ false
        → (f.id == id) ≡ false
        → Tells fs dirent id s
        → Tells (f ∷ fs) dirent id s
    scan_on open_already n m h = rw n h
    scan_on taken n m (g, h) = (g, rw m h)
    scan_on vacant n m (h, h') = (rw n h, rw m h')

-- The file is open and has no further number, or is not and has a number that no open file has.
abbrev pub IsChosen : List FileDescriptor → ℕ → Option ℕ → Type 0
IsChosen files dirent o =
    ((is_open files dirent ≡ true) × (o ≡ none))
    ⊎ ((is_open files dirent ≡ false)
        × ((id : ℕ) × (get_file_descriptor files id ≡ none) × (o ≡ some id)))

-- As each number below `id` is taken, one of those up to the number of open files is not.
choose_id-IsChosen :
    (fuel : ℕ) (files : List FileDescriptor) (dirent id : ℕ)
    → length files < fuel + id
    → ((j : ℕ) → j < id → (f : FileDescriptor) × (get_file_descriptor files j ≡ some f))
    → IsChosen files dirent (choose_id fuel files dirent id)
unfolding choose_id Tells
choose_id-IsChosen zero files dirent id enough below =
    absurd (ground (arith, count_taken id files below))
choose_id-IsChosen (suc fuel) files dirent id enough below =
    next (scan files dirent id) (scan-Tells files dirent id)
      (λ below'. choose_id-IsChosen fuel files dirent (id + 1) (omega arith) below')
  where
    with_id :
        (g : FileDescriptor)
        → get_file_descriptor files id ≡ some g
        → (j : ℕ) → j < id + 1
        → (f : FileDescriptor) × (get_file_descriptor files j ≡ some f)
    with_id g found j lt = elim (Bool-cases (j == id)) [
      | inl e ↦ (g, ap (get_file_descriptor files) (==→eq j id e) ∙ found)
      | inr ne ↦ below j (ground arith)
    ]

    next :
        (s : Scan)
        → Tells files dirent id s
        → (((j : ℕ) → j < id + 1 → (f : FileDescriptor) × (get_file_descriptor files j ≡ some f))
            → IsChosen files dirent (choose_id fuel files dirent (id + 1)))
        → IsChosen files dirent (elim s [
          | open_already ↦ none
          | taken ↦ choose_id fuel files dirent (id + 1)
          | vacant ↦ some id
        ])
    next open_already h again = inl (h, refl)
    next taken (g, found) again = again (with_id g found)
    next vacant (closed, free) again = inr (closed, (id, free, refl))

-- open of a file that is there refuses it if it is open. Otherwise it always comes to a number,
-- which no open file has, and adds a descriptor with this number.
pub open_existing_lem :
    (chip : Chip) (fs : FileSystem) (flags directory dirent : ℕ)
    → ((is_open fs.open_files dirent ≡ true)
        × (open_existing chip fs flags directory dirent ≡ (err not_supported, fs)))
      ⊎ ((is_open fs.open_files dirent ≡ false)
          × ((id : ℕ) × (get_file_descriptor fs.open_files id ≡ none)
              × (open_existing chip fs flags directory dirent
                  ≡ add_descriptor fs flags id dirent directory)))
unfolding open_existing
open_existing_lem chip fs flags directory dirent =
    elim (choose_id-IsChosen (length fs.open_files + 1) fs.open_files dirent 0 (omega arith)
      (λ j lt. absurd (omega arith))) [
        | inl (busy, e) ↦ inl (busy, rw (open_existing, e) refl)
        | inr (closed, (id, free, e)) ↦ inr (closed, (id, free, rw (open_existing, e) refl))
      ]
