-- ===== src/Server/Main/Guarded.antt =====
-- The list of allowed events from the command line to the devices, over all of server/input-server.c.
use network_gamepads.Base.{
  map, ℕ, ◌≡◌, ℤ, pos, Bool, true, List, [], ◌∷◌, Option, none, some, text, arith, All,
  if◌then◌else◌, Bool-cases, inl, inr,
}
use network_gamepads.Os.{Os, Trace}
use network_gamepads.Settings.{World, getenv_or, default_host, default_port, default_password}
use network_gamepads.Args.{Numerals}
use network_gamepads.Acl.{Evdev}
use network_gamepads.Acl.Listed.{Item, line_of, IsGood, listed, set_codes-Listed}
use network_gamepads.Server.State.{Config, EnabledEvent, GamepadClient}
use network_gamepads.Server.Data.Whitelist.{Allowed}
use network_gamepads.Server.Rounds.{Server, run, start}
use network_gamepads.Server.Rounds.Allowed.{IsAllowed, Guards, run-IsAllowed}
use network_gamepads.Server.Main.{main, serve}
use network_gamepads.Server.Main.Options.{main-whitelist}

module _ (ev : Evdev) (items : List Item) where
  -- An item of the list names the event.
  abbrev IsListed : EnabledEvent → Type 0
  IsListed e = listed ev e.type e.code items ≡ true

  abbrev AllListed : GamepadClient → Type 0
  AllListed c = All IsListed c.meta.enabled_events

  -- Every event that is enabled for a client is named by the list.
  abbrev pub OnlyListed : Option Server → Type 0
  OnlyListed none = Unit
  OnlyListed (some sv) = All AllListed sv.clients

  -- The list alone decides.
  abbrev Decides : Config → Type 0
  Decides config = (t c : ℕ) → config.whitelist t c ≡ (if listed ev t c items then 1 else 0)

  Allowed-IsListed :
      (config : Config) (e : EnabledEvent) → Decides config → Allowed config e → IsListed e
  Allowed-IsListed config e decides allowed = elim (Bool-cases (listed ev e.type e.code items)) [
    | inl h ↦ h
    | inr h ↦ ground (arith, decides e.type e.code)
  ]

  events-IsListed :
      (config : Config) (es : List EnabledEvent)
      → Decides config
      → All (Allowed config) es
      → All IsListed es
  events-IsListed config [] decides h = tt
  events-IsListed config (e ∷ es) decides h =
      (Allowed-IsListed config e decides h.0, events-IsListed config es decides h.1)

  clients-AllListed :
      (os : Os) (config : Config) (cs : List GamepadClient)
      → Decides config
      → All (IsAllowed os config) cs
      → All AllListed cs
  clients-AllListed os config [] decides h = tt
  clients-AllListed os config (c ∷ cs) decides h = (
    events-IsListed config c.meta.enabled_events decides h.0,
    clients-AllListed os config cs decides h.1,
  )

  Guards-OnlyListed :
      (os : Os) (config : Config) (r : Option Server)
      → Decides config
      → Guards os config r
      → OnlyListed r
  Guards-OnlyListed os config none decides h = tt
  Guards-OnlyListed os config (some sv) decides h = clients-AllListed os config sv.clients decides h

  -- If the server is started with the arguments --whitelist and a file, and with no others, and the
  -- lines of the file are comments, which start with `#`, or have the form `type.code` for numbers
  -- inside of the table, with no dot in a name, no `#` before the first and no star before the second,
  -- then main serves with a configuration under which, in every run with defined behaviour, whoever
  -- connects and whatever the clients send, only events that the file names are enabled for the device
  -- of a client.
  pub main-OnlyListed :
      (os : Os) (world : World) (num : Numerals) (files : List ℕ → Option (List (List ℕ)))
      → (ready : List (ℤ → Bool)) (name file : List ℕ) → files file ≡ some (map line_of items)
      → All (IsGood ev) items
      → (config : Config) × (main os world num ev files ready
            (name ∷ text "--whitelist" ∷ file ∷ [])
          ≡ serve os world ready (
            getenv_or world (text "SERVER_HOST") default_host,
            getenv_or world (text "SERVER_PORT") default_port,
            config,
          ))
        × ((listener : ℤ) (readys : List (ℤ → Bool)) (t : Trace)
            → OnlyListed (run os config listener readys (record start { trace = t })))
  main-OnlyListed os world num files ready name file found good =
      let (table, ends, decides) = set_codes-Listed ev 1 items (λ type code. 0) good in
      let config : Config = record {
        password = getenv_or world (text "SERVER_PW") default_password;
        whitelist = table;
      } in
      (
        config,
        main-whitelist os world num ev files ready name file (map line_of items) (pos 1) table found
            ends,
        λ listener readys t.
            Guards-OnlyListed os config (run os config listener readys (record start { trace = t }))
              decides (run-IsAllowed os config listener readys t),
      )
