-- ===== src/Codec/RoundTrip/Session.antt =====
-- Each decoder of Session reads the layout of its message.
use ibkr_go.Prelude.{◌*◌, ◌≡◌, refl, subst, List, [], ◌∷◌, arith, length, length-append}
use ibkr_go.Wire.Fields.{Bytes}
use ibkr_go.Codec.Numbers.{itoa}
use ibkr_go.Codec.Numbers.RoundTrip.{Fits}
use ibkr_go.Codec.Messages.{
  Contract, CurrentTime, CurrentTimeMillis, DisplayGroupList, DisplayGroupUpdated, FamilyCodeEntry,
  FamilyCodes, NextValidId, PnlSingleValue, PnlValue, ReceiveFa, ScannerDataEntry,
  ScannerDataResponse, ScannerParameters, UserInfo, WshEventDataResponse, WshMetaDataResponse,
  next_valid_id, receive_fa, scanner_parameters, scanner_data_response, current_time,
  display_group_list, display_group_updated, family_codes, pnl_value, pnl_single_value,
  wsh_meta_data_response, wsh_event_data_response, user_info, current_time_millis,
}
use ibkr_go.Codec.Gives.{
  Gives, Gives-pure, Gives-int, Gives-int64, Gives-string, Gives-skip, Gives-entry,
}
use ibkr_go.Codec.Gives.Counts.{
  entries_fields, Gives-count, Gives-require, Gives-repeated, All-map, All-of_each, suc-mul,
}
use ibkr_go.Codec.Decoders.Session.{
  decode_next_valid_id, decode_current_time, decode_current_time_in_millis, decode_user_info,
  decode_family_codes, decode_pnl, decode_pnl_single, decode_receive_fa, decode_scanner_parameters,
  decode_scanner_data, decode_display_group_list, decode_display_group_updated,
  decode_wsh_meta_data, decode_wsh_event_data, read_family_code_entry, read_scanner_data_entry,
  read_scanner_contract,
}
use ibkr_go.Codec.Layouts.Bodies.{
  next_valid_id_fields, receive_fa_fields, scanner_parameters_fields, scanner_data_entry_fields,
  bare_contract, ScannerDataEntryRanged, scanner_data_response_fields, current_time_fields,
  display_group_list_fields, display_group_updated_fields, family_code_entry_fields,
  family_codes_fields, pnl_value_fields, pnl_single_value_fields, wsh_meta_data_response_fields,
  wsh_event_data_response_fields, user_info_fields, current_time_millis_fields,
}
use ibkr_go.Codec.Layouts.{Ranged}

pub next_valid_id-Gives :
    (version : Bytes) (m : NextValidId)
    → Ranged (next_valid_id m)
    → Gives decode_next_valid_id (next_valid_id_fields version m) (next_valid_id m ∷ [])
unfolding decode_next_valid_id
next_valid_id-Gives version m h = Gives-skip _ (Gives-int64 _ h Gives-pure)

pub current_time-Gives :
    (version : Bytes) (m : CurrentTime)
    → Ranged (current_time m)
    → Gives decode_current_time (current_time_fields version m) (current_time m ∷ [])
unfolding decode_current_time
current_time-Gives version m h = Gives-skip _ (Gives-string _ Gives-pure)

pub current_time_millis-Gives :
    (version : Bytes) (m : CurrentTimeMillis)
    → Ranged (current_time_millis m)
    → Gives decode_current_time_in_millis
        (current_time_millis_fields version m)
        (current_time_millis m ∷ [])
unfolding decode_current_time_in_millis
current_time_millis-Gives version m h = Gives-string _ Gives-pure

pub user_info-Gives :
    (version : Bytes) (m : UserInfo)
    → Ranged (user_info m)
    → Gives decode_user_info (user_info_fields version m) (user_info m ∷ [])
unfolding decode_user_info
user_info-Gives version m h = Gives-int _ h (Gives-string _ Gives-pure)

family_code_entry-Gives :
    (e : FamilyCodeEntry) → Gives read_family_code_entry (family_code_entry_fields e) e
unfolding read_family_code_entry
family_code_entry-Gives e = Gives-string _ (Gives-string _ Gives-pure)

length-family_code_entry :
    (xs : List FamilyCodeEntry)
    → length (entries_fields family_code_entry_fields xs) ≡ length xs * 2
length-family_code_entry [] = refl
length-family_code_entry (x ∷ xs) = omega (
  arith,
  length-family_code_entry xs,
  length-append (family_code_entry_fields x) (entries_fields family_code_entry_fields xs),
  suc-mul (length xs) 2,
)

pub family_codes-Gives :
    (version : Bytes) (m : FamilyCodes)
    → Ranged (family_codes m)
    → Gives decode_family_codes (family_codes_fields version m) (family_codes m ∷ [])
unfolding decode_family_codes
family_codes-Gives version m h =
    Gives-count _ _ h
      (omega (
        arith,
        length-family_code_entry m.codes,
        length-append (entries_fields family_code_entry_fields m.codes) [],
      ))
      (Gives-require _ (length m.codes) 2 _ refl
        (λ left k. omega (
          arith,
          k,
          length-family_code_entry m.codes,
          length-append (entries_fields family_code_entry_fields m.codes) [],
        ))
        (Gives-repeated read_family_code_entry family_code_entry_fields _
          (All-of_each family_code_entry-Gives m.codes) Gives-pure))

pub pnl_value-Gives :
    (version : Bytes) (m : PnlValue)
    → Ranged (pnl_value m)
    → Gives decode_pnl (pnl_value_fields version m) (pnl_value m ∷ [])
unfolding decode_pnl
pnl_value-Gives version m h =
    Gives-int _ h (Gives-string _ (Gives-string _ (Gives-string _ Gives-pure)))

pub pnl_single_value-Gives :
    (version : Bytes) (m : PnlSingleValue)
    → Ranged (pnl_single_value m)
    → Gives decode_pnl_single (pnl_single_value_fields version m) (pnl_single_value m ∷ [])
unfolding decode_pnl_single
pnl_single_value-Gives version m h =
    Gives-int _ h (
      Gives-string _ (Gives-string _ (Gives-string _ (Gives-string _ (Gives-string _ Gives-pure)))))

pub receive_fa-Gives :
    (version : Bytes) (m : ReceiveFa)
    → Ranged (receive_fa m)
    → Gives decode_receive_fa (receive_fa_fields version m) (receive_fa m ∷ [])
unfolding decode_receive_fa
receive_fa-Gives version m h = Gives-skip _ (Gives-int _ h (Gives-string _ Gives-pure))

pub scanner_parameters-Gives :
    (version : Bytes) (m : ScannerParameters)
    → Ranged (scanner_parameters m)
    → Gives decode_scanner_parameters
        (scanner_parameters_fields version m)
        (scanner_parameters m ∷ [])
unfolding decode_scanner_parameters
scanner_parameters-Gives version m h = Gives-skip _ (Gives-string _ Gives-pure)

scanner_contract-Gives :
    (c : Contract)
    → Fits 32 c.con_id
    → Gives read_scanner_contract
        (itoa c.con_id
          ∷ c.symbol
          ∷ c.sec_type
          ∷ c.expiry
          ∷ c.strike
          ∷ c.right
          ∷ c.exchange
          ∷ c.currency
          ∷ c.local_symbol
          ∷ [])
        (record (bare_contract c) { trading_class = [] })
unfolding read_scanner_contract
scanner_contract-Gives c h = Gives-int _ h (
    Gives-string _ (
      Gives-string _ (
        Gives-string _ (
          Gives-string _
            (Gives-string _ (Gives-string _ (Gives-string _ (Gives-string _ Gives-pure))))))))

scanner_row-Gives :
    (e : ScannerDataEntry)
    → ScannerDataEntryRanged e
    → Gives read_scanner_data_entry (scanner_data_entry_fields e) e
unfolding read_scanner_data_entry
scanner_row-Gives e h =
    let row : Gives read_scanner_data_entry (scanner_data_entry_fields e)
        (record e { contract = bare_contract e.contract }) =
      Gives-int _ h.0 (
        Gives-entry read_scanner_contract _ (scanner_contract-Gives e.contract h.1) (
          Gives-string _ (
            Gives-string _
              (Gives-string _ (Gives-string _ (Gives-string _ (Gives-string _ Gives-pure))))))) in
    subst
      (λ c. Gives read_scanner_data_entry (scanner_data_entry_fields e) (record e { contract = c }))
      h.2 row

length-scanner_data_entry :
    (xs : List ScannerDataEntry)
    → length (entries_fields scanner_data_entry_fields xs) ≡ length xs * 16
length-scanner_data_entry [] = refl
length-scanner_data_entry (x ∷ xs) = omega (
  arith,
  length-scanner_data_entry xs,
  length-append (scanner_data_entry_fields x) (entries_fields scanner_data_entry_fields xs),
  suc-mul (length xs) 16,
)

pub scanner_data_response-Gives :
    (version : Bytes) (m : ScannerDataResponse)
    → Ranged (scanner_data_response m)
    → Gives decode_scanner_data
        (scanner_data_response_fields version m)
        (scanner_data_response m ∷ [])
unfolding decode_scanner_data
scanner_data_response-Gives version m h = Gives-skip _ (
    Gives-int _ h.0 (
      Gives-count _ _ h.1
        (omega (
          arith,
          length-scanner_data_entry m.entries,
          length-append (entries_fields scanner_data_entry_fields m.entries) [],
        ))
        (Gives-require _ (length m.entries) 16 _ refl
          (λ left k. omega (
            arith,
            k,
            length-scanner_data_entry m.entries,
            length-append (entries_fields scanner_data_entry_fields m.entries) [],
          ))
          (Gives-repeated read_scanner_data_entry scanner_data_entry_fields _
            (All-map scanner_row-Gives m.entries h.2) Gives-pure))))

pub display_group_list-Gives :
    (version : Bytes) (m : DisplayGroupList)
    → Ranged (display_group_list m)
    → Gives decode_display_group_list
        (display_group_list_fields version m)
        (display_group_list m ∷ [])
unfolding decode_display_group_list
display_group_list-Gives version m h = Gives-skip _ (Gives-int _ h (Gives-string _ Gives-pure))

pub display_group_updated-Gives :
    (version : Bytes) (m : DisplayGroupUpdated)
    → Ranged (display_group_updated m)
    → Gives decode_display_group_updated
        (display_group_updated_fields version m)
        (display_group_updated m ∷ [])
unfolding decode_display_group_updated
display_group_updated-Gives version m h = Gives-skip _ (Gives-int _ h (Gives-string _ Gives-pure))

pub wsh_meta_data_response-Gives :
    (version : Bytes) (m : WshMetaDataResponse)
    → Ranged (wsh_meta_data_response m)
    → Gives decode_wsh_meta_data
        (wsh_meta_data_response_fields version m)
        (wsh_meta_data_response m ∷ [])
unfolding decode_wsh_meta_data
wsh_meta_data_response-Gives version m h = Gives-int _ h (Gives-string _ Gives-pure)

pub wsh_event_data_response-Gives :
    (version : Bytes) (m : WshEventDataResponse)
    → Ranged (wsh_event_data_response m)
    → Gives decode_wsh_event_data
        (wsh_event_data_response_fields version m)
        (wsh_event_data_response m ∷ [])
unfolding decode_wsh_event_data
wsh_event_data_response-Gives version m h = Gives-int _ h (Gives-string _ Gives-pure)
