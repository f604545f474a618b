-- ===== src/Mgmt/Detail/Lookup.antt =====
-- The answer to `show bgp rib prefix`, for a prefix as the tables print it.
use pathforge.Base.{subst, true, ℕ, ◌≡◌, refl, List, [], ◌∷◌, ◌++◌, ap, ◌∙◌, sym, get, IsU8, IsU32}
use pathforge.Mgmt.{Host, Shared, process_command, dispatch}
use pathforge.Mgmt.Detail.{cmd_bgp_rib_prefix, found_text, with_len, with_addr, with_parts}
use pathforge.Rib.{Rib}
use pathforge.Rib.Routes.{PrefixKey, same_key}
use pathforge.Text.{chars, show_number, show_addr, split_whitespace, is_whitespace}
use pathforge.Text.Parses.{split_once-show_key, parse_addr-show_addr, parse_uint-prefix_len}
use pathforge.Text.Shown.{show_key}
use pathforge.Text.Splits.{
  IsSolid, split_whitespace-IsSolid, split_whitespace_word, show_key-IsSolid, show_key-first,
}

space : is_whitespace 32 ≡ true
unfolding is_whitespace
space = refl

show_word-IsSolid : IsSolid (chars "show")
unfolding is_whitespace chars
show_word-IsSolid = (refl, (refl, (refl, (refl, tt))))

bgp_word-IsSolid : IsSolid (chars "bgp")
unfolding is_whitespace chars
bgp_word-IsSolid = (refl, (refl, (refl, tt)))

rib_word-IsSolid : IsSolid (chars "rib")
unfolding is_whitespace chars
rib_word-IsSolid = (refl, (refl, (refl, tt)))

prefix_word-IsSolid : IsSolid (chars "prefix")
unfolding is_whitespace chars
prefix_word-IsSolid = (refl, (refl, (refl, (refl, (refl, (refl, tt))))))

-- The words of the command.
prefix_words :
    (w : List ℕ)
    → split_whitespace (chars "show bgp rib prefix " ++ w)
      ≡ chars "show" ∷ chars "bgp" ∷ chars "rib" ∷ chars "prefix" ∷ split_whitespace w
unfolding chars
prefix_words w =
    split_whitespace_word 115 (104 ∷ 111 ∷ 119 ∷ []) (chars "bgp rib prefix " ++ w) 32
      show_word-IsSolid space
    ∙ ap (λ ws. chars "show" ∷ ws)
        (split_whitespace_word 98 (103 ∷ 112 ∷ []) (chars "rib prefix " ++ w) 32 bgp_word-IsSolid
            space
          ∙ ap (λ ws. chars "bgp" ∷ ws)
              (split_whitespace_word 114 (105 ∷ 98 ∷ []) (chars "prefix " ++ w) 32 rib_word-IsSolid
                  space
                ∙ ap (λ ws. chars "rib" ∷ ws)
                    (split_whitespace_word 112 (114 ∷ 101 ∷ 102 ∷ 105 ∷ 120 ∷ []) w 32
                      prefix_word-IsSolid space)))

module _ (host : Host) {Table : Type 0} where
  cmd_bgp_rib_prefix-show_key :
      (rib : Rib Table) (key : PrefixKey)
      → IsU32 key.address
      → IsU8 key.prefix_len
      → cmd_bgp_rib_prefix host.show_socket rib (show_key key)
        ≡ found_text host.show_socket (show_key key) (get same_key key rib.loc_rib)
  unfolding cmd_bgp_rib_prefix
  cmd_bgp_rib_prefix-show_key rib key a l =
      let s = show_key key in
      let len_s = show_number key.prefix_len in
      ap (with_parts host.show_socket s rib.loc_rib) (split_once-show_key key)
      ∙ ap (with_addr host.show_socket s rib.loc_rib (show_addr key.address) len_s)
          (parse_addr-show_addr key.address a)
      ∙ ap (with_len host.show_socket s rib.loc_rib key.address len_s)
          (parse_uint-prefix_len key.prefix_len l)

  dispatch_prefix :
      (s : Shared Table) (cmd w : List ℕ)
      → dispatch host s cmd (chars "show" ∷ chars "bgp" ∷ chars "rib" ∷ chars "prefix" ∷ w ∷ [])
        ≡ cmd_bgp_rib_prefix host.show_socket s.rib w
  unfolding dispatch chars
  dispatch_prefix s cmd w = refl

  -- `show bgp rib prefix` with a prefix as the tables print it shows the route that the Loc-RIB holds
  -- for that prefix, or says that there is none: it never takes the text for a wrong one.
  pub process_command-show_key :
      (s : Shared Table) (key : PrefixKey)
      → IsU32 key.address
      → IsU8 key.prefix_len
      → process_command host (chars "show bgp rib prefix " ++ show_key key) s
        ≡ found_text host.show_socket (show_key key) (get same_key key s.rib.loc_rib)
  unfolding process_command
  process_command-show_key s key a l =
      let cmd = chars "show bgp rib prefix " ++ show_key key in
      let (c, t, e) = show_key-first key in
      let solid : IsSolid (c ∷ t) = subst IsSolid e (show_key-IsSolid key) in
      let word : split_whitespace (show_key key) ≡ show_key key ∷ [] =
        ap split_whitespace e ∙ split_whitespace-IsSolid c t solid ∙ ap (λ w. w ∷ []) (sym e) in
      ap (dispatch host s cmd) (
        prefix_words (show_key key)
        ∙ ap (λ ws. chars "show" ∷ chars "bgp" ∷ chars "rib" ∷ chars "prefix" ∷ ws) word)
      ∙ dispatch_prefix s cmd (show_key key)
      ∙ cmd_bgp_rib_prefix-show_key s.rib key a l
