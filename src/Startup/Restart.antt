-- ===== src/Startup/Restart.antt =====
-- A broker that starts again reads back what the last one wrote.
use symbolon.Prelude.{
  ℕ, ◌<◌, ◌≡◌, refl, sym, ap, ◌∙◌, ◌≢◌, inl, inr, Option, none, some, List, [], ◌∷◌, ◌++◌,
  append-nil, append_assoc, arith, All, All-append, All-imp, Bytes, ok,
}
use symbolon.Prelude.Assoc
use symbolon.Prelude.Assoc.{contains_key-lookup, insert_absent, lookup-append_other}
use symbolon.Identity.{Identity}
use symbolon.Identity.Rule.{IsIdentity, Good, Good-ne, parse-eq-ok_iff}
use symbolon.Utf8.{invalid_at, invalid_at_ascii}
use symbolon.Psk.{Psk}
use symbolon.PskStore
use symbolon.PskStore.{PskStore, Hex, identity_eq}
use symbolon.PskStore.RoundTrip.{HexLaws, IsHexDigit, Distinct, IsStore, parse-render}
use symbolon.AtomicFs.{File}
use symbolon.SharedState.{ResolvedClient, ClientEntry, Json, entries_of, render_clients_doc}
use symbolon.SharedState.Disk.{Within, Coherent, HoldsPsks}
use symbolon.Startup.{FileRead, contents, not_found, load_psk_store, load_clients, table_from}

-- Identities that are valid, each once.
pub record IsTable {V : Type 0} (table : List (Identity × V)) : Type 0 where
  pub identities : All (λ (p : Identity × V). IsIdentity p.0.text) table
  pub distinct : Distinct table

-- What is read of a file.
abbrev pub read_of : File → FileRead
read_of f = elim f.target [ none ↦ not_found | some bytes ↦ contents bytes ]

module _ (hex : Hex) where
  still_absent :
      {V W : Type 0} (k : Identity) (v : V) (table : List (Identity × V))
      (rest : List (Identity × W))
      → All (λ (p : Identity × W). k ≢ p.0) rest
      → All (λ (p : Identity × W). Assoc.lookup p.0 table ≡ none) rest
      → All (λ (p : Identity × W). Assoc.lookup p.0 (table ++ (k, v) ∷ []) ≡ none) rest
  still_absent k v table [] d a = tt
  still_absent k v table ((j, w) ∷ rest) d a =
      (lookup-append_other k j v table d.0 ∙ a.0, still_absent k v table rest d.1 a.1)

  table_from-entries :
      (rest table : List (Identity × ResolvedClient))
      → All (λ (p : Identity × ResolvedClient). IsIdentity p.0.text) rest
      → Distinct rest
      → All (λ (p : Identity × ResolvedClient). Assoc.lookup p.0 table ≡ none) rest
      → table_from hex (entries_of rest none) table ≡ ok (table ++ rest)
  unfolding table_from entries_of
  table_from-entries [] table ids d a = ap ok (sym (append-nil table))
  table_from-entries ((k, c) ∷ rest) table ids d a =
      rw
        (
          (parse-eq-ok_iff k.text k).1 (refl, ids.0),
          (contains_key-lookup k table).1 a.0,
          insert_absent k c table a.0,
        )
        (table_from-entries rest (table ++ (k, c) ∷ []) ids.1 d.1
            (still_absent k c table rest d.0 a.1)
          ∙ ap ok (append_assoc table ((k, c) ∷ []) rest))

  none_yet :
      (V : Type 0) {W : Type 0} (rest : List (Identity × W))
      → All (λ (p : Identity × W). Assoc.lookup {V = V} p.0 [] ≡ none) rest
  unfolding Assoc.lookup
  none_yet V [] = tt
  none_yet V (p ∷ rest) = (refl, none_yet V rest)

-- What the broker relies on of `serde_json` here: the document of these entries is UTF-8, and is read
-- back.
pub record ReadsBack (json : Json) (from_str : Bytes → Option (List ClientEntry))
    (entries : List ClientEntry) : Type 0 where
  pub utf8 : (bytes : Bytes) → json.to_vec_pretty entries ≡ ok bytes → invalid_at bytes ≡ none
  pub back : (bytes : Bytes) → json.to_vec_pretty entries ≡ ok bytes → from_str bytes ≡ some entries

module _ (hex : Hex) (laws : HexLaws hex) where
  ascii_of_digits : (b : ℕ) → IsHexDigit b → b < 128
  ascii_of_digits b h = ground arith

  render-ascii :
      (entries : List (Identity × Psk))
      → All (λ (p : Identity × Psk). IsIdentity p.0.text) entries
      → All (λ b. b < 128) (PskStore.render_entries hex entries)
  unfolding PskStore.render_entries PskStore.lower_hex
  render-ascii [] h = tt
  render-ascii ((k, psk) ∷ rest) h =
      All-append _ (k.text ++ b':' ∷ hex.encode psk.bytes) _
        (All-append _ k.text _ (All-imp Good _ (λ b g. (Good-ne b g).0) k.text h.0.good) (
          omega arith,
          All-imp IsHexDigit _ ascii_of_digits (hex.encode psk.bytes) (laws.digits psk.bytes),
        ))
        (omega arith, render-ascii rest h.1)

  load_psk_store-render :
      (f : File) (stored : List (Identity × Psk)) (json : Json)
      → HoldsPsks hex json f stored
      → IsStore (record { entries = stored })
      → load_psk_store hex (read_of f) ≡ ok (record { entries = stored })
  unfolding load_psk_store PskStore.new PskStore.render
  load_psk_store-render f stored json (inl (absent, nothing)) is = rw (absent, nothing) refl
  load_psk_store-render f stored json (inr held) is =
      let ascii =
        invalid_at_ascii (PskStore.render_entries hex stored)
          (render-ascii stored (All-imp _ _ (λ p e. e.0) stored is.entries)) in
      rw (held, load_psk_store, ascii, parse-render hex laws (record { entries = stored }) is) refl

  module _ (json : Json) (from_str : Bytes → Option (List ClientEntry)) where
    load_clients-entries :
        (bytes : Bytes) (held : List (Identity × ResolvedClient))
        → ReadsBack json from_str (entries_of held none)
        → render_clients_doc json held none ≡ ok bytes
        → IsTable held
        → load_clients hex from_str (contents bytes) ≡ ok held
    unfolding load_clients render_clients_doc
    load_clients-entries bytes held reads doc is =
        rw
          (
            load_clients,
            reads.utf8 bytes doc,
            reads.back bytes doc,
            table_from-entries hex held [] is.identities is.distinct
                (none_yet hex ResolvedClient held),
          )
          refl

    -- A broker that starts from files that are coherent, as any enrollment or revocation leaves them,
    -- loads both tables as they were written, and each client that it then knows has a key; provided
    -- that the clients file is there, the JSON library reads back what `render_clients_doc` wrote, and
    -- the tables have one entry for each identity. The file of the keys need not be there.
    pub restart-Coherent :
        (psk_file clients_file : File) (c : Coherent hex json psk_file clients_file)
        → ReadsBack json from_str (entries_of c.held none)
        → IsTable c.held
        → IsStore (record { entries = c.stored })
        → clients_file.target ≢ none
        → (load_clients hex from_str (read_of clients_file) ≡ ok c.held)
          × (load_psk_store hex (read_of psk_file) ≡ ok (record { entries = c.stored }))
          × Within c.held c.stored
    restart-Coherent psk_file clients_file c reads table store present = (
      elim c.clients [
        | inl (absent, nothing) ↦ absurd (present absent)
        | inr (bytes, there, doc) ↦ rw there (load_clients-entries bytes c.held reads doc table)
      ],
      load_psk_store-render psk_file c.stored json c.psks store,
      c.within,
    )
