-- ===== src/Msch/RoundTrip.antt =====
-- python/src/mlogv32/utils/msch.py: reading back what the compressed buffer holds.
use mlogv.Prelude.{
  ℕ, zero, suc, ◌≡◌, refl, ap, sym, ◌∙◌, List, [], ◌∷◌, ◌++◌, append-nil, append_assoc, length,
  take, drop, take_of_append, drop_of_append, Text, Result, ok, ◌>>=◌, bind-eq-ok, Option, none,
  some, ℤ, pos, negsuc,
}
use mlogv.Layout.{Link}
use mlogv.Msch.{
  MschError, ByteBuffer, ProcessorConfigUtf8, encode, write_link, write_links, write_config,
  compress,
}
use mlogv.Msch.Utf8.{decode, ok-injective, encode-decode}

-- A write puts bytes behind those of the buffer, and the read takes the value from them again.
abbrev pub IsReadBy :
    {A : Type 0}
    → (List ℕ → A → Result MschError (List ℕ))
    → (List ℕ → Option (A × List ℕ))
    → Type 0
IsReadBy {A} write read =
    (before : List ℕ) (a : A) (after : List ℕ)
    → write before a ≡ ok after
    → (bytes : List ℕ) × (after ≡ before ++ bytes)
      × ((rest : List ℕ) → read (bytes ++ rest) ≡ some (a, rest))

pub record Reads : Type 0 where
  pub read_byte : List ℕ → Option (ℤ × List ℕ)
  pub read_short : List ℕ → Option (ℤ × List ℕ)
  pub read_int : List ℕ → Option (ℤ × List ℕ)
  pub read_utf : List ℕ → Option (Text × List ℕ)

infixl 5 ◌then◌
abbrev ◌then◌ : {A B : Type 0} → Option A → (A → Option B) → Option B
none then next = none
some a then next = next a

-- what the game reads from the buffer: the format's version, the code, and the links
abbrev pub read_links : Reads → ℕ → List ℕ → Option (List Link)
read_links r zero bytes = some []
read_links r (suc n) bytes = r.read_utf bytes then λ name. r.read_short name.1 then λ x.
    r.read_short x.1 then λ y.
    read_links r n y.1 then λ links. some (record { x = x.0; y = y.0; name = name.0 } ∷ links)

abbrev count_of : ℤ → ℕ
count_of (pos n) = n
count_of (negsuc n) = 0

abbrev pub read_config : Reads → List ℕ → Option (ℤ × ProcessorConfigUtf8)
read_config r bytes = r.read_byte bytes then λ version. r.read_int version.1 then λ size.
    decode (take (count_of size.0) size.1) then λ code.
    r.read_int (drop (count_of size.0) size.1) then λ count.
    read_links r (count_of count.0) count.1 then λ links.
    some (version.0, record { code = code; links = links })

-- what was appended twice
glue :
    (before a b one after : List ℕ)
    → one ≡ before ++ a
    → after ≡ one ++ b
    → after ≡ before ++ (a ++ b)
glue before a b one after h1 h2 = h2 ∙ ap (λ x. x ++ b) h1 ∙ append_assoc before a b

module _ (buffer : ByteBuffer) (r : Reads) (byte_law : IsReadBy buffer.write_byte r.read_byte)
    (short_law : IsReadBy buffer.write_short r.read_short)
    (int_law : IsReadBy buffer.write_int r.read_int)
    (utf_law : IsReadBy buffer.write_utf r.read_utf) where
  -- the bytes of a list of links
  abbrev HasLinks : List ℕ → List Link → List ℕ → Type 0
  HasLinks before links after =
      (bytes : List ℕ) × (after ≡ before ++ bytes)
      × ((rest : List ℕ) → read_links r (length links) (bytes ++ rest) ≡ some links)

  HasLinks-next :
      (before one two three after : List ℕ) (link : Link) (links : List Link)
      → buffer.write_utf before link.name ≡ ok one
      → buffer.write_short one link.x ≡ ok two
      → buffer.write_short two link.y ≡ ok three
      → HasLinks three links after
      → HasLinks before (link ∷ links) after
  HasLinks-next before one two three after link links h1 h2 h3 (bytes, e, reads) =
      let (a, ea, ra) = utf_law before link.name one h1 in
      let (b, eb, rb) = short_law one link.x two h2 in
      let (c, ec, rc) = short_law two link.y three h3 in
      (
        a ++ (b ++ (c ++ bytes)),
        glue before a (b ++ (c ++ bytes)) one after ea
            (glue one b (c ++ bytes) two after eb (glue two c bytes three after ec e)),
        λ rest. simp (append_assoc, ra, rb, rc, reads),
      )

  write_links-HasLinks :
      (before after : List ℕ) (links : List Link)
      → write_links buffer before links ≡ ok after
      → HasLinks before links after
  unfolding write_links write_link
  write_links-HasLinks before after [] h =
      ([], sym (ok-injective before after h) ∙ sym (append-nil before), λ rest. refl)
  write_links-HasLinks before after (link ∷ links) h =
      let (three, h3, rest) =
        bind-eq-ok (write_link buffer before link) (λ c. write_links buffer c links) h in
      let (one, hone, h') =
        bind-eq-ok (buffer.write_utf before link.name)
          (λ c. buffer.write_short c link.x >>= (λ c. buffer.write_short c link.y)) h3 in
      let (two, htwo, hthree) =
        bind-eq-ok (buffer.write_short one link.x) (λ c. buffer.write_short c link.y) h' in
      HasLinks-next before one two three after link links hone htwo hthree
        (write_links-HasLinks three after links rest)

  -- the bytes of a configuration, behind which nothing stands
  read_config-steps :
      (config : ProcessorConfigUtf8) (one two three content code : List ℕ)
      → buffer.write_byte [] (pos 1) ≡ ok one
      → encode config.code ≡ ok code
      → buffer.write_int one (pos (length code)) ≡ ok two
      → buffer.write_int (two ++ code) (pos (length config.links)) ≡ ok three
      → HasLinks three config.links content
      → read_config r content ≡ some (pos 1, config)
  read_config-steps config one two three content code h1 hc h2 h3 (links, e, reads) =
      let (a, ea, ra) = byte_law [] (pos 1) one h1 in
      let (b, eb, rb) = int_law one (pos (length code)) two h2 in
      let (c, ec, rc) = int_law (two ++ code) (pos (length config.links)) three h3 in
      let whole : content ≡ a ++ (b ++ (code ++ (c ++ (links ++ [])))) =
        glue [] a (b ++ (code ++ (c ++ links))) one content ea (
          glue one b (code ++ (c ++ links)) two content eb (
            glue two code (c ++ links) (two ++ code) content refl
              (glue (two ++ code) c links three content ec e)))
        ∙ ap (λ l. a ++ (b ++ (code ++ (c ++ l)))) (sym (append-nil links)) in
      ap (read_config r) whole
      ∙ simp
          (ra, rb, rc, take_of_append, drop_of_append, encode-decode config.code code hc, reads [])

  write_config-read :
      (config : ProcessorConfigUtf8) (content : List ℕ)
      → write_config buffer config ≡ ok content
      → read_config r content ≡ some (pos 1, config)
  unfolding write_config
  write_config-read config content h =
      let (one, h1, k1) = bind-eq-ok (buffer.write_byte [] (pos 1)) (λ one. behind_byte one) h in
      let (code, hc, k2) = bind-eq-ok (encode config.code) (λ code. behind_code one code) k1 in
      let (two, h2, k3) =
        bind-eq-ok (buffer.write_int one (pos (length code))) (λ two. behind_int two code) k2 in
      let (three, h3, k4) =
        bind-eq-ok (buffer.write_int (two ++ code) (pos (length config.links)))
          (λ three. write_links buffer three config.links) k3 in
      read_config-steps config one two three content code h1 hc h2 h3
        (write_links-HasLinks three content config.links k4)
    where
      behind_int : List ℕ → List ℕ → Result MschError (List ℕ)
      behind_int two code = do
        three ← buffer.write_int (two ++ code) (pos (length config.links))
        write_links buffer three config.links

      behind_code : List ℕ → List ℕ → Result MschError (List ℕ)
      behind_code one code = do two ← buffer.write_int one (pos (length code)); behind_int two code

      behind_byte : List ℕ → Result MschError (List ℕ)
      behind_byte one = do code ← encode config.code; behind_code one code

-- What `compress` returns holds the configuration: after the decompression a reader finds the version 1,
-- the same code and the same links, in their order. That needs a byte buffer whose four writes put behind
-- the bytes of the buffer what their reads take from there, and a decompression that undoes the
-- compression.
pub compress-read_config :
    (buffer : ByteBuffer) (r : Reads) (zlib_compress zlib_decompress : List ℕ → List ℕ)
    (byte_law : IsReadBy buffer.write_byte r.read_byte)
    (short_law : IsReadBy buffer.write_short r.read_short)
    (int_law : IsReadBy buffer.write_int r.read_int)
    (utf_law : IsReadBy buffer.write_utf r.read_utf)
    (zlib_law : (bytes : List ℕ) → zlib_decompress (zlib_compress bytes) ≡ bytes)
    (config : ProcessorConfigUtf8) (data_bytes : List ℕ)
    → compress buffer zlib_compress config ≡ ok data_bytes
    → read_config r (zlib_decompress data_bytes) ≡ some (pos 1, config)
unfolding compress
compress-read_config buffer r zlib_compress zlib_decompress byte_law short_law int_law utf_law
      zlib_law config data_bytes h =
    let (content, hc, k) =
      bind-eq-ok (write_config buffer config) (λ content. ok (zlib_compress content)) h in
    let same = ok-injective (zlib_compress content) data_bytes k in
    ap (read_config r) (ap zlib_decompress (sym same) ∙ zlib_law content)
    ∙ write_config-read buffer r byte_law short_law int_law utf_law config content hc
