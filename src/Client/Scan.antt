-- ===== src/Client/Scan.antt =====
-- scan_devices of client/input-client.c, but for what it prints.
use network_gamepads.Base.{
  ℕ, ◌≡◌, refl, inl, inr, ℤ, is_neg, Bool, true, false, ◌&&◌, List, [], ◌∷◌, ◌++◌, Option, none,
  some, arith, if◌then◌else◌, text, isprint, take, Bool-cases,
}
use network_gamepads.Os.{Os, Trace, Call}
use network_gamepads.Args.{strcmp}
use network_gamepads.Network.Connecting.Sockets.{same_refl}
use network_gamepads.Client.Run.Reopening.{open_devices}

-- A directory entry: d_name, and whether d_type is DT_CHR.
pub record Entry : Type 0 where
  pub d_name : List ℕ
  pub is_chr : Bool

unfoldable pub event_prefix : List ℕ
event_prefix = text "event"

-- !strncmp(file->d_name, EVENT_PREFIX, strlen(EVENT_PREFIX)) && file->d_type == DT_CHR
unfoldable pub is_event_node : Entry → Bool
unfolding event_prefix
is_event_node entry = strcmp (take 5 entry.d_name) event_prefix && entry.is_chr

-- The loop over the entries. The device is closed whether it has a name or not.
unfoldable pub scan_nodes : Os → List Entry → Trace → Trace
scan_nodes os [] t = t
scan_nodes os (entry ∷ rest) t =
    let fd = os.result t Call.open_device in
    let opened = Call.open_device ∷ t in
    elim (is_event_node entry) [
      | false ↦ scan_nodes os rest t
      | true ↦ elim (is_neg fd) [
        | true ↦ scan_nodes os rest opened
        | false ↦ scan_nodes os rest (Call.close fd ∷ Call.device_name fd ∷ opened)
      ]
    ]

-- The text before the first character that is not printable.
unfoldable pub trim : List ℕ → List ℕ
unfolding isprint
trim [] = []
trim (c ∷ rest) = let kept = trim rest in if isprint c then c ∷ kept else []

-- The path of the device, or `none` for the status 1. `directory` is what opendir and readdir give,
-- `line` what fgets reads.
unfoldable pub scan_devices :
    Os → Option (List Entry) → Option (List ℕ) → Trace → Option (List ℕ) × Trace
unfolding scan_nodes trim event_prefix
scan_devices os none line t = (none, t)
scan_devices os (some entries) none t = (none, scan_nodes os entries t)
scan_devices os (some entries) (some line) t =
    (some (text "/dev/input/" ++ (event_prefix ++ trim line)), scan_nodes os entries t)

scan_nodes-open_devices :
    (os : Os) (entries : List Entry) (t : Trace)
    → open_devices os (scan_nodes os entries t) ≡ open_devices os t
unfolding scan_nodes
scan_nodes-open_devices os [] t = refl
scan_nodes-open_devices os (entry ∷ rest) t =
    let fd : ℤ = os.result t Call.open_device in
    elim (Bool-cases (is_event_node entry)) [
      | inl e ↦ elim (Bool-cases (is_neg fd)) [
        | inl n ↦ ground (arith, scan_nodes-open_devices os rest (Call.open_device ∷ t))
        | inr n ↦ ground (
          arith,
          scan_nodes-open_devices os rest
              (Call.close fd ∷ Call.device_name fd ∷ Call.open_device ∷ t),
          same_refl fd,
        )
      ]
      | inr e ↦ ground (arith, scan_nodes-open_devices os rest t)
    ]

-- scan_devices leaves no device open that it has opened.
pub scan_devices-open_devices :
    (os : Os) (directory : Option (List Entry)) (line : Option (List ℕ)) (t : Trace)
    → open_devices os (scan_devices os directory line t).1 ≡ open_devices os t
unfolding scan_devices
scan_devices-open_devices os none line t = refl
scan_devices-open_devices os (some entries) none t = scan_nodes-open_devices os entries t
scan_devices-open_devices os (some entries) (some line) t = scan_nodes-open_devices os entries t
