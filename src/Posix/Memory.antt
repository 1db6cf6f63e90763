-- ===== src/Posix/Memory.antt =====
-- A small file system in memory: files with a time, a clock, and a disk that may be full. It shows
-- that what is relied on of the operating system can hold.
use mathlib.Core.Option
use cbb.Prelude.{
  ◌^◌, ltb, take-length, ℕ, ◌+◌, ◌≡◌, Bool, true, false, [], Option, none, some, refl, List, ◌∷◌,
  pos, negsuc, ℤ, take, drop, length, ◌==◌, arith, if◌then◌else◌, Option-cases, inl, inr,
}
use cbb.Text.{Bytes}
use cbb.Common.{SysResult, ok, fail}
use cbb.StdMap.{Map, lookup, assign, erase}
use cbb.StdMap.Laws.{lookup-assign, lookup-erase}
use cbb.Posix.{Posix, IsLawful}
use cbb.Posix.Data.{splice, KeepsData}
use cbb.Text.Find.{eqb_iff}

pub record MemoryFile : Type 0 where
  pub text : Bytes
  pub time : ℕ

pub record Disk : Type 0 where
  pub files : Map MemoryFile
  pub clock : ℕ
  pub next : ℕ
  pub full : Bool
  pub opened : List (ℕ × Bytes)

abbrev is_some : Option MemoryFile → Bool
is_some none = false
is_some (some f) = true

abbrev put : Bytes → Bytes → Disk → Disk
put p text d = record d { files = assign p (record { text = text; time = d.clock }) d.files }

abbrev copy : Bytes → Bytes → Disk → SysResult ℕ × Disk
copy p q d = elim (lookup p d.files) [
  | none ↦ (fail 0, d)
  | some f ↦ if d.full then (fail 27, d) else (ok 0, put q f.text d)
]

abbrev remove : Bytes → Disk → SysResult ℕ × Disk
remove p d = elim (lookup p d.files) [
  | none ↦ (fail 1, record d { files = erase p d.files })
  | some f ↦ (ok 0, record d { files = erase p d.files })
]

abbrev move : Bytes → Bytes → Disk → SysResult ℕ × Disk
move p q d = elim (lookup p d.files) [
  | none ↦ (fail 0, d)
  | some f ↦ (ok 0, record d { files = assign q f (erase p d.files) })
]

-- The path that a descriptor was opened under.
abbrev opened_path : ℕ → List (ℕ × Bytes) → Option Bytes
opened_path fd [] = none
opened_path fd ((n, p) ∷ rest) = if fd == n then some p else opened_path fd rest

abbrev pub names : Disk → ℕ → Option Bytes
names d fd = opened_path fd d.opened

abbrev open_new : Bytes → Disk → SysResult ℕ × Disk
open_new p d = (ok d.next, record d { next = d.next + 1; opened = (d.next, p) ∷ d.opened })

abbrev text_of : Bytes → Disk → Option Bytes
text_of p d = Option.map (λ (f : MemoryFile). f.text) (lookup p d.files)

abbrev read_at : ℕ → ℕ → ℤ → Disk → SysResult Bytes
read_at fd size (negsuc n) d = fail 21
read_at fd size (pos offset) d = elim (names d fd) [
  | none ↦ fail 8
  | some p ↦ elim (text_of p d) [ none ↦ fail 8 | some text ↦ ok (take size (drop offset text)) ]
]

abbrev write_at : ℕ → Bytes → ℤ → Disk → SysResult ℕ × Disk
write_at fd bs (negsuc n) d = (fail 21, d)
write_at fd bs (pos offset) d = elim (names d fd) [
  | none ↦ (fail 8, d)
  | some p ↦ elim (text_of p d) [
    | none ↦ (fail 8, d)
    | some text ↦ if d.full then (fail 27, d) else (ok (length bs), put p (splice text offset bs) d)
  ]
]

abbrev pub memory : Posix
memory = record {
  State = Disk;
  exists = λ d p. is_some (lookup p d.files);
  is_directory = λ d p. false;
  is_regular_file = λ d p. is_some (lookup p d.files);
  last_write_time = λ d p. elim (lookup p d.files) [ none ↦ fail 1 | some f ↦ ok f.time ];
  copy_file = λ p q d. if is_some (lookup q d.files) then (fail 16, d) else copy p q d;
  copy_file_overwrite = copy;
  fs_rename = move;
  remove_all = remove;
  create_directories = λ p d. (ok 0, d);
  recursive_entries = λ d p. fail 1;
  filename = λ p. p;
  fs_remove = remove;
  read_text = λ d p. Option.map (λ (f : MemoryFile). f.text) (lookup p d.files);
  write_text = λ p text d. put p text d;
  read_dir = λ d p offset. fail 1;
  closedir = λ d p. ok 0;
  statvfs = λ d p. fail 37;
  lstat = λ d p. fail 1;
  fstat = λ d fd. fail 8;
  access = λ d p mode. if is_some (lookup p d.files) then ok 0 else fail 1;
  readlink = λ d p n. fail 21;
  rename = move;
  chmod = λ _ _ d. (fail 0, d);
  lchown = λ _ _ _ d. (fail 0, d);
  truncate = λ _ _ d. (fail 0, d);
  ftruncate = λ _ _ d. (fail 0, d);
  utimes = λ _ _ _ d. (fail 0, d);
  mkdir = λ _ _ d. (fail 0, d);
  unlink = remove;
  rmdir = λ _ d. (fail 0, d);
  symlink = λ _ _ d. (fail 0, d);
  link = λ _ _ d. (fail 0, d);
  open_file_mode = λ p flags mode d. open_new p (put p [] d);
  open_file = λ p flags d. if is_some (lookup p d.files) then open_new p d else (fail 0, d);
  pread = read_at;
  pwrite = write_at;
  fsync = λ _ d. (fail 0, d);
  fdatasync = λ _ d. (fail 0, d);
  close = λ _ d. (fail 0, d);
  sync = λ d. d;
  dup = λ _ d. (fail 0, d);
  lsetxattr = λ _ _ _ _ _ d. (fail 0, d);
  lgetxattr = λ d p name n. fail 60;
  llistxattr = λ d p n. ok (0, []);
  lremovexattr = λ _ _ d. (fail 0, d);
  flock = λ _ _ d. (fail 0, d);
  zone_malloc = λ d size. ltb size (2 ^ 20);
}

abbrev pub text_at : Disk → Bytes → Option Bytes
text_at d p = Option.map (λ (f : MemoryFile). f.text) (lookup p d.files)

copy_done :
    (d t : Disk) (p q : Bytes) (n : ℕ)
    → copy p q d ≡ (ok n, t)
    → (f : MemoryFile) × (lookup p d.files ≡ some f) × (t ≡ put q f.text d)
copy_done d t p q n h = elim (Option-cases (lookup p d.files)) [
  | inl e ↦ ground arith
  | inr (f, e) ↦ (f, e, ground arith)
]

pub memory-IsLawful : IsLawful memory text_at
memory-IsLawful = record {
  content-fs_remove =
      λ s p q. ground (arith, lookup-erase p q s.files, Option-cases (lookup p s.files));
  exists-fs_remove =
      λ s p q. ground (arith, lookup-erase p q s.files, Option-cases (lookup p s.files));
  copy_file_existing = λ s p q h. (16, rw h);
  content-copy_file_overwrite = λ s t p q n h r.
      let (f, e, done) = copy_done s t p q n h in
      rw done
        (ground (arith, lookup-assign q r (record { text = f.text; time = s.clock }) s.files));
  exists-copy_file_overwrite = λ s t p q n h r.
      let (f, e, done) = copy_done s t p q n h in
      rw done
        (ground (arith, lookup-assign q r (record { text = f.text; time = s.clock }) s.files));
  last_write_time-copy_file_overwrite = λ s t p q n h r other.
      let (f, e, done) = copy_done s t p q n h in
      rw done (
        ground
          (arith, other, lookup-assign q r (record { text = f.text; time = s.clock }) s.files));
}

write_done :
    (s t : Disk) (bs : Bytes) (fd offset n : ℕ)
    → write_at fd bs (pos offset) s ≡ (ok n, t)
    → (p : Bytes) × (text : Bytes) × (names s fd ≡ some p)
      × (text_of p s ≡ some text)
      × (n ≡ length bs)
      × (t ≡ put p (splice text offset bs) s)
write_done s t bs fd offset n h = elim (Option-cases (names s fd)) [
  | inl e ↦ ground (arith, e)
  | inr (p, e) ↦ elim (Option-cases (text_of p s)) [
    | inl e' ↦ ground (arith, e, e')
    | inr (text, e') ↦ (p, text, e, e', ground (arith, e, e'), ground (arith, e, e'))
  ]
]

pub memory-KeepsData : KeepsData memory text_at names
memory-KeepsData = record {
  names-open_file_mode = λ s t p flags mode fd h. ground arith;
  content-open_file_mode = λ s t p flags mode fd new h.
      ground (arith, lookup-assign p p (record { text = []; time = s.clock }) s.files, eqb_iff p p);
  exists-open_file_mode = λ s t p q flags mode fd new h.
      ground (arith, lookup-assign p q (record { text = []; time = s.clock }) s.files);
  names-open_file = λ s t p fd h. ground arith;
  content-open_file = λ s t p q fd h. ground arith;
  content-pwrite = λ s t p old bs fd offset n name has h.
      let (p', text, at, had, all, done) = write_done s t bs fd offset n h in
      rw (done, all, take-length bs)
        (ground (
          arith,
          lookup-assign p' p (record { text = splice text offset bs; time = s.clock }) s.files,
          eqb_iff p p',
        ));
  names-pwrite = λ s t bs fd fd' offset n h.
      let (p', text, at, had, all, done) = write_done s t bs fd offset n h in rw done refl;
  exists-pwrite = λ s t bs q fd offset n h.
      let (p', text, at, had, all, done) = write_done s t bs fd offset n h in
      rw done (
        ground (
          arith,
          lookup-assign p' q (record { text = splice text offset bs; time = s.clock }) s.files,
          eqb_iff q p',
          Option-cases (lookup p' s.files),
        ));
  content-pread = λ s p text bs fd size offset name has h. ground (arith, name, has);
  content-close = λ s fd q. refl;
  exists-close = λ s fd q. refl;
}
