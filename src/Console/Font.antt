-- ===== src/Console/Font.antt =====
-- Reading the font file: the glyphs are the bytes behind the header, in order.
use oxidized.Common.{
  ℕ, zero, suc, ◌+◌, ◌*◌, ◌≤◌, ◌<◌, ◌≡◌, refl, ◌∙◌, sym, subst, arith, ℕ_discrete, some, List, [],
  ◌∷◌, get_elem?, get_elem?_total, set, replicate, length, length-set, get_elem?-set_self,
  get_elem?-set_ne, returns,
}
use oxidized.Console.{Glyph, create, fill_glyph, read_glyphs, new_font}

fill_glyph_lem :
    (n : ℕ) (font_bytes : List ℕ) (base x : ℕ) (old : List ℕ)
    → base + x + n ≤ length font_bytes
    → x + n ≤ length old
    → (out : List ℕ) × (fill_glyph n font_bytes base x old ≡ returns out)
      × (length out ≡ length old)
      × ((k : ℕ) → x ≤ k → k < x + n → get_elem? out k ≡ get_elem? font_bytes (base + k))
      × ((k : ℕ) → k < x → get_elem? out k ≡ get_elem? old k)
unfolding fill_glyph
fill_glyph_lem zero font_bytes base x old h room =
    (old, refl, refl, λ k l u. absurd (omega arith), λ k l. refl)
fill_glyph_lem (suc n) font_bytes base x old h room =
    let (byte, e) = get_elem?_total font_bytes (base + x) (omega arith) in
    let (out, q, len, new, kept) =
      fill_glyph_lem n font_bytes base (x + 1) (set old x byte) (omega arith)
        (omega (arith, length-set old x byte)) in
    let inside : x < length old = omega arith in
    let at_x : get_elem? out x ≡ get_elem? font_bytes (base + x) =
      kept x (omega arith) ∙ get_elem?-set_self old x byte inside ∙ sym e in
    (
      out,
      ground (arith, e, q, inside),
      omega (arith, length-set old x byte, len),
      λ k l u. elim (ℕ_discrete k x) [
        | yes same ↦
            subst (λ (j : ℕ). get_elem? out j ≡ get_elem? font_bytes (base + j)) (sym same) at_x
        | no other ↦ new k (omega arith) (omega arith)
      ],
      λ k l. kept k (omega arith) ∙ get_elem?-set_ne old x k byte (λ s. omega arith),
    )

-- The glyph of a code: a line for each of its bytes in the file.
pub record IsGlyphOf (font_bytes : List ℕ) (charsize c : ℕ) (glyph : Glyph) : Type 0 where
  pub lines : glyph.height ≡ charsize
  pub room : length glyph.bytes ≡ 32
  pub bytes :
      (k : ℕ) → k < charsize → get_elem? glyph.bytes k ≡ get_elem? font_bytes (4 + c * charsize + k)

block_bound : (i n k : ℕ) → i * k + k ≤ (i + suc n) * k
block_bound i n k = grind arith

shift_block : (i n k : ℕ) → (i + 1 + n) * k ≡ (i + suc n) * k
shift_block i n k = grind arith

read_glyphs_lem :
    (n : ℕ) (font_bytes : List ℕ) (charsize i : ℕ)
    → charsize ≤ 32
    → 4 + (i + n) * charsize ≤ length font_bytes
    → (font : List Glyph) × (read_glyphs n font_bytes charsize i ≡ returns font)
      × ((c : ℕ)
          → c < n
          → (glyph : Glyph) × (get_elem? font c ≡ some glyph)
            × IsGlyphOf font_bytes charsize (i + c) glyph)
unfolding read_glyphs
read_glyphs_lem zero font_bytes charsize i small h = ([], refl, λ c l. absurd (omega arith))
read_glyphs_lem (suc n) font_bytes charsize i small h =
    let (out, e, len, new, _) =
      fill_glyph_lem charsize font_bytes (4 + i * charsize) 0 (replicate 32 0)
        (omega (arith, block_bound i n charsize)) (omega arith) in
    let (rest, q, good) =
      read_glyphs_lem n font_bytes charsize (i + 1) small
        (omega (arith, shift_block i n charsize)) in
    let glyph : Glyph = record { height = charsize; bytes = out } in
    let first : IsGlyphOf font_bytes charsize i glyph = record {
      lines = refl;
      room = len;
      bytes = λ k l. new k (omega arith) (omega arith);
    } in
    (glyph ∷ rest, rw (e, q) refl, at i glyph rest first good)
  where
    at :
        (i : ℕ) (glyph : Glyph) (rest : List Glyph)
        → IsGlyphOf font_bytes charsize i glyph
        → ((c : ℕ)
            → c < n
            → (g : Glyph) × (get_elem? rest c ≡ some g)
              × IsGlyphOf font_bytes charsize (i + 1 + c) g)
        → (c : ℕ) → c < suc n
        → (g : Glyph) × (get_elem? (glyph ∷ rest) c ≡ some g)
          × IsGlyphOf font_bytes charsize (i + c) g
    at i glyph rest first good zero l =
        (glyph, refl, subst (λ j. IsGlyphOf font_bytes charsize j glyph) (omega arith) first)
    at i glyph rest first good (suc c) l =
        let (g, e, v) = good c (omega arith) in
        (g, e, subst (λ j. IsGlyphOf font_bytes charsize j g) (omega arith) v)

-- A font file that starts with 0x36, 0x04, any mode and a size of at most 32, and has that many
-- bytes for each of 256 codes behind these four, is read without a panic: the glyph of each code
-- has as many lines as the size, and its bytes are those of the code's block in the file.
pub new_font_lem :
    (font_bytes : List ℕ) (mode charsize : ℕ)
    → get_elem? font_bytes 0 ≡ some 0x36
    → get_elem? font_bytes 1 ≡ some 0x04
    → get_elem? font_bytes 2 ≡ some mode
    → get_elem? font_bytes 3 ≡ some charsize
    → charsize ≤ 32
    → 4 + 256 * charsize ≤ length font_bytes
    → (font : List Glyph) × (new_font font_bytes ≡ returns font)
      × ((c : ℕ)
          → c < 256
          → (glyph : Glyph) × (get_elem? font c ≡ some glyph)
            × IsGlyphOf font_bytes charsize c glyph)
unfolding new_font create
new_font_lem font_bytes mode charsize e0 e1 e2 e3 small whole =
    let (font, e, good) = read_glyphs_lem 256 font_bytes charsize 0 small whole in
    (
      font,
      ground (arith, e0, e1, e2, e3, e),
      λ c l.
          let (glyph, at, v) = good c l in
          (glyph, at, subst (λ j. IsGlyphOf font_bytes charsize j glyph) (omega arith) v),
    )
