-- ===== src/Members/NetAdr.antt =====
-- reapi/src/natives/natives_members.cpp: set_netadr and get_netadr, which read and write an address of
-- the network without the table.
use reapi.Members.Natives.{Call}
use reapi.Members.{Member, max_region_range, member_at}
use reapi.Prelude.{
  ℕ, ◌+◌, ◌*◌, ◌%◌, ◌^◌, ◌<◌, ◌≡◌, ◌≢◌, Option, none, some, ◌==◌, if◌then◌else◌, arith,
}

-- The parts of netadr_t that are read and written: the type, the four bytes of the address as one
-- number, and the port, both as they lie in memory.
pub record NetAdr : Type 0 where
  pub type : ℕ
  pub ip : ℕ
  pub port : ℕ

-- The region netadr.
abbrev pub netadr_type : ℕ
netadr_type = 49 * max_region_range

abbrev pub netadr_ip : ℕ
netadr_ip = netadr_type + 1

abbrev pub netadr_port : ℕ
netadr_port = netadr_type + 2

-- ntohs and htonl, which turn bytes around and so undo themselves.
pub record ByteOrder : Type 0 where
  pub ntohs : ℕ → ℕ
  pub htonl : ℕ → ℕ
  pub ntohs-ntohs : (p : ℕ) → p < 2 ^ 16 → ntohs (ntohs p) ≡ p
  pub htonl-htonl : (a : ℕ) → a < 2 ^ 32 → htonl (htonl a) ≡ a

module _ (order : ByteOrder) (members : ℕ → ℕ → Member) where
  -- The address is given by its pointer; `none` is a null pointer.
  unfoldable pub set_netadr : Call → Option NetAdr → ℕ × Option NetAdr
  set_netadr call adr = elim (member_at members (call.params 2)) [
    | none ↦ (0, adr)
    | some member ↦ elim adr [
      | none ↦ (0, none)
      | some a ↦
          if call.params 2 == netadr_type
          then (1, some (record a { type = call.params 3 }))
          else (if call.params 2 == netadr_port
              then (1, some (record a { port = order.ntohs (call.params 3 % 2 ^ 16) }))
              else (if call.params 2 == netadr_ip
                  then (1, some (record a { ip = order.htonl (call.params 3) }))
                  else (0, some a)))
    ]
  ]

  -- The value that is returned; the text of the address is not modelled.
  unfoldable pub get_netadr : Call → Option NetAdr → ℕ
  get_netadr call adr = elim (member_at members (call.params 2)) [
    | none ↦ 0
    | some member ↦ elim adr [
      | none ↦ 0
      | some a ↦
          if call.params 2 == netadr_type
          then a.type
          else (if call.params 2 == netadr_port
              then order.ntohs a.port
              else (if call.params 2 == netadr_ip then order.htonl a.ip else 0))
    ]
  ]

  abbrev pub adr_value : Call → ℕ
  adr_value call = if call.params 2 == netadr_port then call.params 3 % 2 ^ 16 else call.params 3

  -- For an address that is there: if set_netadr returns 1, then get_netadr for the same part returns
  -- the cell of the third argument itself, for a port its lower 16 bits, and for the other two parts
  -- what it returned before; whatever that cell is the address of plays no part.
  pub get_netadr-set_netadr :
      (setting reading other : Call) (a : NetAdr)
      → setting.params 3 < 2 ^ 32
      → reading.params 2 ≡ setting.params 2
      → other.params 2 ≢ setting.params 2
      → let r = set_netadr setting (some a) in
        r.0 ≡ 1
        → (get_netadr reading r.1 ≡ adr_value setting)
          × (get_netadr other r.1 ≡ get_netadr other (some a))
  unfolding set_netadr get_netadr
  get_netadr-set_netadr setting reading other a h e d k =
      let v = setting.params 3 in
      ground (arith, order.ntohs-ntohs (v % 2 ^ 16), order.htonl-htonl v)
