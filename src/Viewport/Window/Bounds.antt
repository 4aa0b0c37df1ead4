-- ===== src/Viewport/Window/Bounds.antt =====
-- Where `Window` puts the cursor and the two ends of the rows that it renders.
use nudge.Base.{arith, false, refl, ◌≡◌, ◌⊎◌}
use nudge.Base.Int.{
  +ℤ_parts, -ℤ_parts, IsInt, between-IsInt, eqb_ℤ, int64, int64_exact, negsuc, pos, ℤ, ◌+ℤ◌, ◌-ℤ◌,
  ◌<ℤ◌, ◌≤ℤ◌,
}
use nudge.Viewport.Window.{
  WindowRange, clamp_cursor, clamp_int, count, follow_cursor, max_int, min_int, place, window,
}

pub clamp_cursor_bounds :
    (n c : ℤ) → pos 0 <ℤ n → IsInt n → (pos 0 ≤ℤ clamp_cursor n c) × (clamp_cursor n c <ℤ n)
unfolding clamp_cursor int64 ◌-ℤ◌
clamp_cursor_bounds (pos n) (pos c) h k = ground arith
clamp_cursor_bounds (pos n) (negsuc c) h k = ground arith
clamp_cursor_bounds (negsuc n) c h k = absurd (omega arith)

-- A cursor inside the list is kept.
pub clamp_cursor_exact : (n c : ℤ) → pos 0 ≤ℤ c → c <ℤ n → clamp_cursor n c ≡ c
unfolding clamp_cursor
clamp_cursor_exact n c h k = ground arith

-- The cursor `c` lies in the `v` rows from `t` on, and these lie in the list of `n` rows.
abbrev Shows : ℤ → ℤ → ℤ → ℤ → Type 0
Shows n v t c = (pos 0 ≤ℤ t) × (t ≤ℤ c) × (c <ℤ t +ℤ v) × (t +ℤ v ≤ℤ n)

follow_cursor-Shows :
    (n v t c : ℤ)
    → IsInt n
    → pos 0 <ℤ v
    → pos 0 ≤ℤ c
    → c <ℤ n
    → pos 0 ≤ℤ t
    → t +ℤ v ≤ℤ n
    → Shows n v (follow_cursor c t v) c
unfolding follow_cursor
follow_cursor-Shows n v t c hn hv hc hcn ht htv = ground (
  arith,
  +ℤ_parts t v,
  +ℤ_parts c v,
  int64_exact (t +ℤ v),
  int64_exact (c +ℤ v),
  -ℤ_parts c v,
  int64_exact (c -ℤ v),
  +ℤ_parts (c -ℤ v) (pos 1),
  int64_exact ((c -ℤ v) +ℤ pos 1),
  +ℤ_parts ((c -ℤ v) +ℤ pos 1) v,
)

clamp_int_bounds : (x lo hi : ℤ) → lo ≤ℤ hi → (lo ≤ℤ clamp_int x lo hi) × (clamp_int x lo hi ≤ℤ hi)
unfolding clamp_int
clamp_int_bounds x lo hi h = ground arith

-- What a placed window promises, for `n > 0` rows, `v` of them visible, and overscan `o`.
pub record Covers (n v o c : ℤ) (w : WindowRange) : Type 0 where
  pub cursor_clamped : w.cursor ≡ clamp_cursor n c
  pub start_nonneg : pos 0 ≤ℤ w.start
  pub start_le_top : w.start ≤ℤ w.top
  pub top_le_cursor : w.top ≤ℤ w.cursor
  pub cursor_visible : w.cursor <ℤ w.top +ℤ v
  pub visible_rendered : w.top +ℤ v ≤ℤ w.end
  pub end_le_total : w.end ≤ℤ w.total
  pub overscan_before : w.top ≤ℤ w.start +ℤ o
  pub overscan_after : w.end ≤ℤ w.top +ℤ v +ℤ o

max_top_lem :
    (n v : ℤ)
    → IsInt n
    → pos 0 <ℤ v
    → v ≤ℤ n
    → (pos 0 ≤ℤ max_int (int64 (n -ℤ v)) (pos 0)) × (max_int (int64 (n -ℤ v)) (pos 0) +ℤ v ≤ℤ n)
unfolding max_int
max_top_lem n v hn hv hvn =
    ground (arith, -ℤ_parts n v, int64_exact (n -ℤ v), +ℤ_parts (n -ℤ v) v, +ℤ_parts (pos 0) v)

-- The two ends that `place` computes from a top that shows the cursor.
start_lem :
    (t o : ℤ)
    → IsInt t
    → IsInt o
    → pos 0 ≤ℤ t
    → pos 0 ≤ℤ o
    → let s = max_int (int64 (t -ℤ o)) (pos 0) in (pos 0 ≤ℤ s) × (s ≤ℤ t) × (t ≤ℤ s +ℤ o)
unfolding max_int
start_lem t o ht ho h k =
    ground (arith, -ℤ_parts t o, int64_exact (t -ℤ o), +ℤ_parts (t -ℤ o) o, +ℤ_parts (pos 0) o)

end_lem :
    (n v t o : ℤ)
    → IsInt n
    → IsInt (n +ℤ o)
    → pos 0 ≤ℤ t
    → pos 0 ≤ℤ o
    → pos 0 <ℤ v
    → t +ℤ v ≤ℤ n
    → let e = min_int (int64 (int64 (t +ℤ v) +ℤ o)) n in
      (t +ℤ v ≤ℤ e) × (e ≤ℤ n) × (e ≤ℤ t +ℤ v +ℤ o)
unfolding min_int
end_lem n v t o hn hno ht ho hv h = ground (
  arith,
  +ℤ_parts t v,
  int64_exact (t +ℤ v),
  +ℤ_parts n o,
  +ℤ_parts (t +ℤ v) o,
  int64_exact ((t +ℤ v) +ℤ o),
)

min_int_bounds : (h n : ℤ) → pos 0 <ℤ h → pos 0 <ℤ n → (pos 0 <ℤ min_int h n) × (min_int h n ≤ℤ n)
unfolding min_int
min_int_bounds h n p q = ground arith

module _ (n c t h o : ℤ) (hn : IsInt n) (hno : IsInt (n +ℤ o)) (ho : IsInt o) (h0 : pos 0 <ℤ h)
    (n0 : pos 0 <ℤ n) (o0 : pos 0 ≤ℤ o) where
  abbrev visible : ℤ
  visible = min_int h n

  abbrev limit : ℤ
  limit = max_int (int64 (n -ℤ visible)) (pos 0)

  abbrev placed : ℤ
  placed = follow_cursor (clamp_cursor n c) (clamp_int t (pos 0) limit) visible

  placed-Shows : Shows n visible placed (clamp_cursor n c)
  placed-Shows =
      let v = min_int_bounds h n h0 n0 in
      let m = max_top_lem n visible hn v.0 v.1 in
      let k = clamp_int_bounds t (pos 0) limit m.0 in
      let q = clamp_cursor_bounds n c n0 hn in
      follow_cursor-Shows n visible (clamp_int t (pos 0) limit) (clamp_cursor n c) hn v.0 q.0 q.1
        k.0 (omega (arith, +ℤ_parts (clamp_int t (pos 0) limit) visible, +ℤ_parts limit visible))

  pub place-Covers : Covers n (min_int h n) o c (place n c t h o)
  unfolding place
  place-Covers =
      let v = min_int_bounds h n h0 n0 in
      let s = placed-Shows in
      let a =
        start_lem placed o (between-IsInt placed n s.0 (omega (arith, +ℤ_parts placed visible)) hn)
          ho s.0 o0 in
      let b = end_lem n visible placed o hn hno s.0 o0 v.0 s.3 in
      record {
        cursor_clamped = refl;
        start_nonneg = a.0;
        start_le_top = a.1;
        top_le_cursor = s.1;
        cursor_visible = s.2;
        visible_rendered = b.0;
        end_le_total = b.1;
        overscan_before = a.2;
        overscan_after = b.2;
      }

max_int_nonneg : (a : ℤ) → pos 0 ≤ℤ a → max_int a (pos 0) ≡ a
unfolding max_int
max_int_nonneg (pos a) h = ground arith
max_int_nonneg (negsuc a) h = absurd (omega arith)

eqb_ℤ-pos : (a : ℤ) → pos 0 <ℤ a → eqb_ℤ a (pos 0) ≡ false
eqb_ℤ-pos a h = ground arith

window-eq-place :
    (n c t h o : ℤ) → pos 0 <ℤ n → pos 0 <ℤ h → pos 0 ≤ℤ o → window n c t h o ≡ place n c t h o
unfolding window
window-eq-place n c t h o n0 h0 o0 = rw (
  max_int_nonneg n (omega arith),
  max_int_nonneg h (omega arith),
  max_int_nonneg o o0,
  eqb_ℤ-pos n n0,
  eqb_ℤ-pos h h0,
)

-- `Window` on a non-empty list and viewport: the cursor is kept inside the list, stays among the
-- visible rows, and the rendered rows hold every visible row, lie in the list, and reach at most
-- `overscan` rows further on either side. The sizes are 64-bit, and the list with the overscan
-- too.
pub window-Covers :
    (n c t h o : ℤ)
    → IsInt n
    → IsInt o
    → IsInt (n +ℤ o)
    → pos 0 <ℤ n
    → pos 0 <ℤ h
    → pos 0 ≤ℤ o
    → Covers n (min_int h n) o c (window n c t h o)
window-Covers n c t h o hn ho hno n0 h0 o0 =
    rw (window-eq-place n c t h o n0 h0 o0) (place-Covers n c t h o hn hno ho h0 n0 o0)

-- An empty list or a viewport without rows renders nothing, wherever the cursor and the top are.
pub window_empty : (n c t h o : ℤ) → (n ≤ℤ pos 0) ⊎ (h ≤ℤ pos 0) → count (window n c t h o) ≡ pos 0
unfolding window max_int count
window_empty n c t h o e = ground arith
