-- ===== src/Osc/Mapping/Bounds.antt =====
-- The bounds of channels, which configure_mappings of osc/osc-xlater.c widens.
use network_gamepads.Base.{
  ℕ, suc, ◌*◌, ◌≤◌, ◌≡◌, refl, sym, ap, ◌∙◌, true, false, List, [], ◌∷◌, ◌++◌, some, arith, length,
  drop, drop-drop,
}
use network_gamepads.Osc.{Floats, OscChannel}
use network_gamepads.Osc.Parse.Arguments.{Word, bytes_of, value_of, osc_param_float-value_of}
use network_gamepads.Osc.Mapping.{widen, widen_channels}

module _ {F : Type 0} (fl : Floats F) where
  -- A total order: lt x y is x < y, and its falsehood y ≤ x.
  pub record IsOrder : Type 0 where
    pub reflexive : (x : F) → fl.lt x x ≡ false
    pub asymmetric : (x y : F) → fl.lt x y ≡ true → fl.lt y x ≡ false
    pub transitive : (x y z : F) → fl.lt y x ≡ false → fl.lt z y ≡ false → fl.lt z x ≡ false

  -- The value lies within the bounds of the channel.
  abbrev pub Within : OscChannel F → F → Type 0
  Within c v = (fl.lt v c.min ≡ false) × (fl.lt c.max v ≡ false)

  -- The same code, and bounds that are as wide or wider.
  abbrev pub Wider : OscChannel F → OscChannel F → Type 0
  Wider c c' = (c'.code ≡ c.code) × (fl.lt c.min c'.min ≡ false) × (fl.lt c'.max c.max ≡ false)

  widen-Wider :
      IsOrder → (v : F) (c : OscChannel F) → Wider c (widen fl v c) × Within (widen fl v c) v
  unfolding widen
  widen-Wider order v c = ground (
    arith,
    order.reflexive v,
    order.reflexive c.min,
    order.reflexive c.max,
    order.asymmetric v c.min,
    order.asymmetric c.max v,
  )

  Within-Wider : IsOrder → (c c' : OscChannel F) (v : F) → Wider c c' → Within c v → Within c' v
  Within-Wider order c c' v (code, low, high) (above, below) =
      (order.transitive c'.min c.min v low above, order.transitive v c.max c'.max below high)

  -- Each channel has its argument, and the value lies within its bounds.
  abbrev pub WithinAll : List (OscChannel F) → List Word → Type 0
  WithinAll [] ws = Unit
  WithinAll (c ∷ cs) [] = ⊥
  WithinAll (c ∷ cs) (w ∷ ws) = Within c (value_of fl w) × WithinAll cs ws

  abbrev pub WiderAll : List (OscChannel F) → List (OscChannel F) → Type 0
  WiderAll [] [] = Unit
  WiderAll (c ∷ cs) (c' ∷ cs') = Wider c c' × WiderAll cs cs'
  WiderAll _ _ = ⊥

  pub WithinAll-WiderAll :
      IsOrder
      → (cs cs' : List (OscChannel F)) (ws : List Word) → WiderAll cs cs'
      → WithinAll cs ws
      → WithinAll cs' ws
  WithinAll-WiderAll order [] [] ws wide h = tt
  WithinAll-WiderAll order [] (c' ∷ cs') ws wide h = absurd wide
  WithinAll-WiderAll order (c ∷ cs) [] ws wide h = absurd wide
  WithinAll-WiderAll order (c ∷ cs) (c' ∷ cs') [] wide h = absurd h
  WithinAll-WiderAll order (c ∷ cs) (c' ∷ cs') (w ∷ ws) wide h = (
    Within-Wider order c c' (value_of fl w) wide.0 h.0,
    WithinAll-WiderAll order cs cs' ws wide.1 h.1,
  )

  pub length-WiderAll : (cs cs' : List (OscChannel F)) → WiderAll cs cs' → length cs' ≡ length cs
  length-WiderAll [] [] wide = refl
  length-WiderAll [] (c' ∷ cs') wide = absurd wide
  length-WiderAll (c ∷ cs) [] wide = absurd wide
  length-WiderAll (c ∷ cs) (c' ∷ cs') wide = ap suc (length-WiderAll cs cs' wide.1)

  pub WiderAll-refl : IsOrder → (cs : List (OscChannel F)) → WiderAll cs cs
  WiderAll-refl order [] = tt
  WiderAll-refl order (c ∷ cs) =
      ((refl, order.reflexive c.min, order.reflexive c.max), WiderAll-refl order cs)

  pub WiderAll-trans :
      IsOrder
      → (cs cs' cs'' : List (OscChannel F)) → WiderAll cs cs'
      → WiderAll cs' cs''
      → WiderAll cs cs''
  WiderAll-trans order [] [] cs'' h h' = h'
  WiderAll-trans order [] (c' ∷ cs') cs'' h h' = absurd h
  WiderAll-trans order (c ∷ cs) [] cs'' h h' = absurd h
  WiderAll-trans order (c ∷ cs) (c' ∷ cs') [] h h' = absurd h'
  WiderAll-trans order (c ∷ cs) (c' ∷ cs') (c'' ∷ cs'') ((e, l, g), h) ((e', l', g'), h') = (
    (
      e' ∙ e,
      order.transitive c''.min c'.min c.min l' l,
      order.transitive c.max c'.max c''.max g g',
    ),
    WiderAll-trans order cs cs' cs'' h h',
  )

  pub widen_channels-Wider :
      IsOrder
      → (args rest : List ℕ) (u : ℕ) (cs : List (OscChannel F)) (ws : List Word)
      → length cs ≤ length ws
      → drop (u * 4) args ≡ bytes_of ws ++ rest
      → (cs' : List (OscChannel F)) × (widen_channels fl args u cs ≡ some cs')
        × WiderAll cs cs'
        × WithinAll cs' ws
  unfolding widen_channels
  widen_channels-Wider order args rest u [] ws le words = ([], refl, tt, tt)
  widen_channels-Wider order args rest u (c ∷ cs) [] le words = absurd (omega arith)
  widen_channels-Wider order args rest u (c ∷ cs) (w ∷ ws) le words =
      let (x, y, z, v) = w in
      let (wide, inside) = widen-Wider order (value_of fl w) c in
      let (cs', e, wider, within) =
        widen_channels-Wider order args rest (suc u) cs ws (omega arith)
          (sym (drop-drop 4 (u * 4) (suc u * 4) args (omega arith)) ∙ ap (drop 4) words) in
      (
        widen fl (value_of fl w) c ∷ cs',
        ground (arith, osc_param_float-value_of fl args rest u w ws words),
        (wide, wider),
        (inside, within),
      )
