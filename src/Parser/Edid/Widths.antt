-- ===== src/Parser/Edid/Widths.antt =====
-- The widths of the numbers: nothing that the parser adds or multiplies wraps.
use qurbrix_hwinfo.Common.{
  ℕ, sym, none, ◌+◌, ◌^◌, ◌<◌, ◌≡◌, ◌||◌, some, List, [], ◌∷◌, arith, if◌then◌else◌, ◌==◌, All,
  zero, suc,
}
use qurbrix_hwinfo.Parser.Edid.{
  byte, u16_le, high_nibble, low_nibble, PreferredMode, parse_preferred_mode, refresh_hz,
}

byte-lt : (bytes : List ℕ) (i : ℕ) → All (λ b. b < 256) bytes → byte bytes i < 256
byte-lt [] i h = omega arith
byte-lt (b ∷ bytes) zero h = h.0
byte-lt (b ∷ bytes) (suc i) h = byte-lt bytes i h.1

high_nibble-lt : (a b : ℕ) → a < 256 → b < 256 → high_nibble a b < 4096
high_nibble-lt a b h k = omega arith

low_nibble-lt : (a b : ℕ) → a < 256 → b < 256 → low_nibble a b < 4096
low_nibble-lt a b h k = omega arith

refresh_hz-lt : (c h v : ℕ) → refresh_hz c h v < 2 ^ 16
unfolding refresh_hz
refresh_hz-lt c h v = ground arith

mode_of :
    (clock w h r : ℕ) (m : PreferredMode)
    → (if clock == 0
        then none
        else if w == 0 || h == 0
        then none
        else some (record { width = w; height = h; refresh_hz = r }))
      ≡ some m
    → (0 < w) × (0 < h) × (w ≡ m.width) × (h ≡ m.height) × (r ≡ m.refresh_hz)
mode_of clock w h r m e = ground (arith, e)

-- Of a list of bytes, the mode that is parsed has a width and a height of at most twelve bits and above zero,
-- and the sums of each with its blanking have sixteen bits, as they have in the source.
pub parse_preferred_mode-bounds :
    (desc : List ℕ) (m : PreferredMode)
    → All (λ b. b < 256) desc
    → parse_preferred_mode desc ≡ some m
    → (0 < m.width)
      × (m.width < 4096)
      × (0 < m.height)
      × (m.height < 4096)
      × (m.refresh_hz < 2 ^ 16)
      × (high_nibble (byte desc 2) (byte desc 4) + low_nibble (byte desc 3) (byte desc 4) < 2 ^ 16)
      × (high_nibble (byte desc 5) (byte desc 7) + low_nibble (byte desc 6) (byte desc 7) < 2 ^ 16)
unfolding parse_preferred_mode
parse_preferred_mode-bounds desc m h e =
    let low : (i : ℕ) → byte desc i < 256 = λ i. byte-lt desc i h in
    let (w, v, p, q, r) =
      mode_of (u16_le (byte desc 0) (byte desc 1)) (high_nibble (byte desc 2) (byte desc 4))
        (high_nibble (byte desc 5) (byte desc 7)) _ m e in
    let wide = high_nibble-lt (byte desc 2) (byte desc 4) (low 2) (low 4) in
    let high = high_nibble-lt (byte desc 5) (byte desc 7) (low 5) (low 7) in
    let blank = low_nibble-lt (byte desc 3) (byte desc 4) (low 3) (low 4) in
    let porch = low_nibble-lt (byte desc 6) (byte desc 7) (low 6) (low 7) in
    (
      rw (sym p) w,
      rw (sym p) wide,
      rw (sym q) v,
      rw (sym q) high,
      rw (sym r) (refresh_hz-lt _ _ _),
      omega (arith, wide, blank),
      omega (arith, high, porch),
    )
