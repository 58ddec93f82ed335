-- ===== src/Rendering/Files.antt =====
-- python/src/mlogv32/preprocessor/app.py: reading the files that were written.
use mlogv.Prelude.{true, [], ◌∷◌, Text, text_eq_iff, ok, ◌≡◌, ◌≢◌, ◌↔◌, arith}
use mlogv.Rendering.{FilePath, path_eq, Files, read_text, write_text}

pub path_eq_iff : (p q : FilePath) → (path_eq p q ≡ true) ↔ (p ≡ q)
unfolding path_eq
path_eq_iff [] [] = ground arith
path_eq_iff (a ∷ p) (b ∷ q) = ground (arith, text_eq_iff a b, path_eq_iff p q)
path_eq_iff [] (b ∷ q) = ground arith
path_eq_iff (a ∷ p) [] = ground arith

pub read_text-write_text :
    (files : Files) (path : FilePath) (text : Text)
    → read_text (write_text files path text) path ≡ ok text
unfolding read_text write_text
read_text-write_text [] path text = ground (arith, path_eq_iff path path)
read_text-write_text ((p, old) ∷ files) path text =
    ground (arith, path_eq_iff p path, read_text-write_text files path text)

pub read_text-write_text_other :
    (files : Files) (path : FilePath) (text : Text) (other : FilePath)
    → path ≢ other
    → read_text (write_text files path text) other ≡ read_text files other
unfolding read_text write_text
read_text-write_text_other [] path text other h = ground (arith, h, path_eq_iff path other)
read_text-write_text_other ((p, old) ∷ files) path text other h = ground (
  arith,
  h,
  path_eq_iff p path,
  path_eq_iff p other,
  path_eq_iff path other,
  read_text-write_text_other files path text other h,
)
