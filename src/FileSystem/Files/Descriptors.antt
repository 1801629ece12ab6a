-- ===== src/FileSystem/Files/Descriptors.antt =====
-- The chain of open files: what changing, taking out and adding a descriptor does to the others.
use codal_microbit_v.Base.{
  ℕ, zero, suc, ◌≤◌, ◌<◌, ◌≡◌, refl, sym, ap, ◌∙◌, arith, true, false, none, some, List, [], ◌∷◌,
  length, ◌==◌, if◌then◌else◌, Bool-cases, inl, inr, ==→eq,
}
use codal_microbit_v.FileSystem.{FileDescriptor}
use codal_microbit_v.FileSystem.Files.{get_file_descriptor, remove_descriptor, update_descriptor}

-- No two descriptors have the same number.
abbrev pub AreDistinct : List FileDescriptor → Type 0
AreDistinct [] = Unit {0}
AreDistinct (f ∷ fs) = (get_file_descriptor fs f.id ≡ none) × AreDistinct fs

pub get-update_same :
    (files : List FileDescriptor) (fd : ℕ) (f g : FileDescriptor)
    → get_file_descriptor files fd ≡ some f
    → g.id ≡ fd
    → get_file_descriptor (update_descriptor files fd g) fd ≡ some g
unfolding get_file_descriptor update_descriptor
get-update_same [] fd f g found same = absurd (ground arith)
get-update_same (h ∷ hs) fd f g found same = elim (Bool-cases (h.id == fd)) [
  | inl e ↦ let e' : (g.id == fd) ≡ true = ground arith in rw (e, e') refl
  | inr ne ↦ rw (ne, ne) (get-update_same hs fd f g (rw ne at found) same)
]

pub get-update_apart :
    (files : List FileDescriptor) (fd x : ℕ) (g : FileDescriptor)
    → (x == fd) ≡ false
    → g.id ≡ fd
    → get_file_descriptor (update_descriptor files fd g) x ≡ get_file_descriptor files x
unfolding get_file_descriptor update_descriptor
get-update_apart [] fd x g apart same = refl
get-update_apart (h ∷ hs) fd x g apart same = elim (Bool-cases (h.id == fd)) [
  | inl e ↦
      let here : (g.id == x) ≡ false = ground arith in
      let there : (h.id == x) ≡ false = ground arith in rw (e, here, there) refl
  | inr ne ↦
      rw ne (ap (λ r. if h.id == x then some h else r) (get-update_apart hs fd x g apart same))
]

pub get-remove_apart :
    (files : List FileDescriptor) (fd x : ℕ)
    → (x == fd) ≡ false
    → get_file_descriptor (remove_descriptor files fd) x ≡ get_file_descriptor files x
unfolding get_file_descriptor remove_descriptor
get-remove_apart [] fd x apart = refl
get-remove_apart (h ∷ hs) fd x apart = elim (Bool-cases (h.id == fd)) [
  | inl e ↦ let there : (h.id == x) ≡ false = ground arith in rw (e, there) refl
  | inr ne ↦ rw ne (ap (λ r. if h.id == x then some h else r) (get-remove_apart hs fd x apart))
]

pub get-remove_same :
    (files : List FileDescriptor) (fd : ℕ)
    → AreDistinct files
    → get_file_descriptor (remove_descriptor files fd) fd ≡ none
unfolding get_file_descriptor remove_descriptor
get-remove_same [] fd h = refl
get-remove_same (f ∷ fs) fd (fresh, h) = elim (Bool-cases (f.id == fd)) [
  | inl e ↦ rw e (ap (get_file_descriptor fs) (sym (==→eq f.id fd e)) ∙ fresh)
  | inr ne ↦ rw (ne, ne) (get-remove_same fs fd h)
]

pub update-AreDistinct :
    (files : List FileDescriptor) (fd : ℕ) (g : FileDescriptor)
    → g.id ≡ fd
    → AreDistinct files
    → AreDistinct (update_descriptor files fd g)
unfolding update_descriptor
update-AreDistinct [] fd g same h = tt
update-AreDistinct (f ∷ fs) fd g same (fresh, h) = elim (Bool-cases (f.id == fd)) [
  | inl e ↦ rw e (ap (get_file_descriptor fs) (same ∙ sym (==→eq f.id fd e)) ∙ fresh, h)
  | inr ne ↦
      rw ne (get-update_apart fs fd f.id g ne same ∙ fresh, update-AreDistinct fs fd g same h)
]

pub remove-AreDistinct :
    (files : List FileDescriptor) (fd : ℕ)
    → AreDistinct files
    → AreDistinct (remove_descriptor files fd)
unfolding remove_descriptor
remove-AreDistinct [] fd h = tt
remove-AreDistinct (f ∷ fs) fd (fresh, h) = elim (Bool-cases (f.id == fd)) [
  | inl e ↦ rw e h
  | inr ne ↦ rw ne (get-remove_apart fs fd f.id ne ∙ fresh, remove-AreDistinct fs fd h)
]

pub length-remove :
    (files : List FileDescriptor) (fd : ℕ) (f : FileDescriptor)
    → get_file_descriptor files fd ≡ some f
    → length files ≡ suc (length (remove_descriptor files fd))
unfolding get_file_descriptor remove_descriptor
length-remove [] fd f found = absurd (ground arith)
length-remove (h ∷ hs) fd f found = elim (Bool-cases (h.id == fd)) [
  | inl e ↦ rw e refl
  | inr ne ↦ rw ne (ap suc (length-remove hs fd f (rw ne at found)))
]

-- As many descriptors as there are numbers taken.
pub count_taken :
    (k : ℕ) (files : List FileDescriptor)
    → ((j : ℕ) → j < k → (f : FileDescriptor) × (get_file_descriptor files j ≡ some f))
    → k ≤ length files
count_taken zero files all = omega arith
count_taken (suc k) files all =
    let (f, found) = all k (omega arith) in
    let rest = count_taken k (remove_descriptor files k) (λ j lt.
      let (g, there) = all j (omega arith) in
      (g, get-remove_apart files k j (ground arith) ∙ there)) in
    ground (arith, length-remove files k f found)
