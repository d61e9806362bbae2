-- ===== src/Schema/Itch50.antt =====
-- What the compiler makes of schemas/itch50.efe.
use market_wire.Prelude.{ℕ, ◌≡◌, refl, List, [], ◌∷◌}
use market_wire.Prelude.Result.{ok}
use market_wire.Prelude.Text.{String, bytes_of}
use market_wire.Schema.{is_space}
use market_wire.Schema.Parser.{Field, Message, Protocol, parse}
use market_wire.Schema.Text.{itch50_text}

unfoldable pub field : ℕ → String → String → ℕ → Field
unfolding bytes_of
field offset name type width = record {
  name = bytes_of name;
  type = bytes_of type;
  width = width;
  offset = offset;
}

unfoldable pub message : String → ℕ → ℕ → List Field → Message
unfolding bytes_of
message name type size fields = record {
  name = bytes_of name;
  type = type;
  fields = fields;
  size = size;
}

-- Each field has its offset, name, type and width; each message its name, type byte and size.
unfoldable pub system_event : Message
unfolding field message
system_event = message "SystemEvent" b'S' 12 (
    field 1 "stock_locate" "u16_be" 2
    ∷ field 3 "tracking_number" "u16_be" 2
    ∷ field 5 "timestamp" "u48_be" 6
    ∷ field 11 "event_code" "char" 1
    ∷ [])

unfoldable pub stock_directory : Message
unfolding field message
stock_directory = message "StockDirectory" b'R' 39 (
    field 1 "stock_locate" "u16_be" 2
    ∷ field 3 "tracking_number" "u16_be" 2
    ∷ field 5 "timestamp" "u48_be" 6
    ∷ field 11 "stock" "ascii" 8
    ∷ field 19 "market_category" "char" 1
    ∷ field 20 "financial_status_indicator" "char" 1
    ∷ field 21 "round_lot_size" "u32_be" 4
    ∷ field 25 "round_lots_only" "char" 1
    ∷ field 26 "issue_classification" "char" 1
    ∷ field 27 "issue_sub_type" "ascii" 2
    ∷ field 29 "authenticity" "char" 1
    ∷ field 30 "short_sale_threshold_indicator" "char" 1
    ∷ field 31 "ipo_flag" "char" 1
    ∷ field 32 "luld_reference_price_tier" "char" 1
    ∷ field 33 "etp_flag" "char" 1
    ∷ field 34 "etp_leverage_factor" "u32_be" 4
    ∷ field 38 "inverse_indicator" "char" 1
    ∷ [])

unfoldable pub stock_trading_action : Message
unfolding field message
stock_trading_action = message "StockTradingAction" b'H' 25 (
    field 1 "stock_locate" "u16_be" 2
    ∷ field 3 "tracking_number" "u16_be" 2
    ∷ field 5 "timestamp" "u48_be" 6
    ∷ field 11 "stock" "ascii" 8
    ∷ field 19 "trading_state" "char" 1
    ∷ field 20 "reserved" "char" 1
    ∷ field 21 "reason" "ascii" 4
    ∷ [])

unfoldable pub reg_sho_restriction : Message
unfolding field message
reg_sho_restriction = message "RegShoRestriction" b'Y' 20 (
    field 1 "stock_locate" "u16_be" 2
    ∷ field 3 "tracking_number" "u16_be" 2
    ∷ field 5 "timestamp" "u48_be" 6
    ∷ field 11 "stock" "ascii" 8
    ∷ field 19 "reg_sho_action" "char" 1
    ∷ [])

unfoldable pub market_participant_position : Message
unfolding field message
market_participant_position = message "MarketParticipantPosition" b'L' 26 (
    field 1 "stock_locate" "u16_be" 2
    ∷ field 3 "tracking_number" "u16_be" 2
    ∷ field 5 "timestamp" "u48_be" 6
    ∷ field 11 "mpid" "ascii" 4
    ∷ field 15 "stock" "ascii" 8
    ∷ field 23 "primary_market_maker" "char" 1
    ∷ field 24 "market_maker_mode" "char" 1
    ∷ field 25 "market_participant_state" "char" 1
    ∷ [])

unfoldable pub mwcb_decline_level : Message
unfolding field message
mwcb_decline_level = message "MwcbDeclineLevel" b'V' 35 (
    field 1 "stock_locate" "u16_be" 2
    ∷ field 3 "tracking_number" "u16_be" 2
    ∷ field 5 "timestamp" "u48_be" 6
    ∷ field 11 "level1" "price8" 8
    ∷ field 19 "level2" "price8" 8
    ∷ field 27 "level3" "price8" 8
    ∷ [])

unfoldable pub mwcb_status : Message
unfolding field message
mwcb_status = message "MwcbStatus" b'W' 12 (
    field 1 "stock_locate" "u16_be" 2
    ∷ field 3 "tracking_number" "u16_be" 2
    ∷ field 5 "timestamp" "u48_be" 6
    ∷ field 11 "breached_level" "char" 1
    ∷ [])

unfoldable pub ipo_quoting_period_update : Message
unfolding field message
ipo_quoting_period_update = message "IpoQuotingPeriodUpdate" b'K' 28 (
    field 1 "stock_locate" "u16_be" 2
    ∷ field 3 "tracking_number" "u16_be" 2
    ∷ field 5 "timestamp" "u48_be" 6
    ∷ field 11 "stock" "ascii" 8
    ∷ field 19 "ipo_quotation_release_time" "u32_be" 4
    ∷ field 23 "ipo_quotation_release_qualifier" "char" 1
    ∷ field 24 "ipo_price" "price4" 4
    ∷ [])

unfoldable pub luld_auction_collar : Message
unfolding field message
luld_auction_collar = message "LuldAuctionCollar" b'J' 35 (
    field 1 "stock_locate" "u16_be" 2
    ∷ field 3 "tracking_number" "u16_be" 2
    ∷ field 5 "timestamp" "u48_be" 6
    ∷ field 11 "stock" "ascii" 8
    ∷ field 19 "auction_collar_reference_price" "price4" 4
    ∷ field 23 "upper_auction_collar_price" "price4" 4
    ∷ field 27 "lower_auction_collar_price" "price4" 4
    ∷ field 31 "auction_collar_extension" "u32_be" 4
    ∷ [])

unfoldable pub operational_halt : Message
unfolding field message
operational_halt = message "OperationalHalt" b'h' 21 (
    field 1 "stock_locate" "u16_be" 2
    ∷ field 3 "tracking_number" "u16_be" 2
    ∷ field 5 "timestamp" "u48_be" 6
    ∷ field 11 "stock" "ascii" 8
    ∷ field 19 "market_code" "char" 1
    ∷ field 20 "operational_halt_action" "char" 1
    ∷ [])

unfoldable pub add_order : Message
unfolding field message
add_order = message "AddOrder" b'A' 36 (
    field 1 "stock_locate" "u16_be" 2
    ∷ field 3 "tracking_number" "u16_be" 2
    ∷ field 5 "timestamp" "u48_be" 6
    ∷ field 11 "order_reference" "u64_be" 8
    ∷ field 19 "side" "char" 1
    ∷ field 20 "shares" "u32_be" 4
    ∷ field 24 "stock" "ascii" 8
    ∷ field 32 "price" "price4" 4
    ∷ [])

unfoldable pub add_order_with_mpid : Message
unfolding field message
add_order_with_mpid = message "AddOrderWithMpid" b'F' 40 (
    field 1 "stock_locate" "u16_be" 2
    ∷ field 3 "tracking_number" "u16_be" 2
    ∷ field 5 "timestamp" "u48_be" 6
    ∷ field 11 "order_reference" "u64_be" 8
    ∷ field 19 "side" "char" 1
    ∷ field 20 "shares" "u32_be" 4
    ∷ field 24 "stock" "ascii" 8
    ∷ field 32 "price" "price4" 4
    ∷ field 36 "attribution" "ascii" 4
    ∷ [])

unfoldable pub order_executed : Message
unfolding field message
order_executed = message "OrderExecuted" b'E' 31 (
    field 1 "stock_locate" "u16_be" 2
    ∷ field 3 "tracking_number" "u16_be" 2
    ∷ field 5 "timestamp" "u48_be" 6
    ∷ field 11 "order_reference" "u64_be" 8
    ∷ field 19 "executed_shares" "u32_be" 4
    ∷ field 23 "match_number" "u64_be" 8
    ∷ [])

unfoldable pub order_executed_with_price : Message
unfolding field message
order_executed_with_price = message "OrderExecutedWithPrice" b'C' 36 (
    field 1 "stock_locate" "u16_be" 2
    ∷ field 3 "tracking_number" "u16_be" 2
    ∷ field 5 "timestamp" "u48_be" 6
    ∷ field 11 "order_reference" "u64_be" 8
    ∷ field 19 "executed_shares" "u32_be" 4
    ∷ field 23 "match_number" "u64_be" 8
    ∷ field 31 "printable" "char" 1
    ∷ field 32 "execution_price" "price4" 4
    ∷ [])

unfoldable pub order_cancel : Message
unfolding field message
order_cancel = message "OrderCancel" b'X' 23 (
    field 1 "stock_locate" "u16_be" 2
    ∷ field 3 "tracking_number" "u16_be" 2
    ∷ field 5 "timestamp" "u48_be" 6
    ∷ field 11 "order_reference" "u64_be" 8
    ∷ field 19 "canceled_shares" "u32_be" 4
    ∷ [])

unfoldable pub order_delete : Message
unfolding field message
order_delete = message "OrderDelete" b'D' 19 (
    field 1 "stock_locate" "u16_be" 2
    ∷ field 3 "tracking_number" "u16_be" 2
    ∷ field 5 "timestamp" "u48_be" 6
    ∷ field 11 "order_reference" "u64_be" 8
    ∷ [])

unfoldable pub order_replace : Message
unfolding field message
order_replace = message "OrderReplace" b'U' 35 (
    field 1 "stock_locate" "u16_be" 2
    ∷ field 3 "tracking_number" "u16_be" 2
    ∷ field 5 "timestamp" "u48_be" 6
    ∷ field 11 "original_order_reference" "u64_be" 8
    ∷ field 19 "new_order_reference" "u64_be" 8
    ∷ field 27 "shares" "u32_be" 4
    ∷ field 31 "price" "price4" 4
    ∷ [])

unfoldable pub trade : Message
unfolding field message
trade = message "Trade" b'P' 44 (
    field 1 "stock_locate" "u16_be" 2
    ∷ field 3 "tracking_number" "u16_be" 2
    ∷ field 5 "timestamp" "u48_be" 6
    ∷ field 11 "order_reference" "u64_be" 8
    ∷ field 19 "side" "char" 1
    ∷ field 20 "shares" "u32_be" 4
    ∷ field 24 "stock" "ascii" 8
    ∷ field 32 "price" "price4" 4
    ∷ field 36 "match_number" "u64_be" 8
    ∷ [])

unfoldable pub cross_trade : Message
unfolding field message
cross_trade = message "CrossTrade" b'Q' 40 (
    field 1 "stock_locate" "u16_be" 2
    ∷ field 3 "tracking_number" "u16_be" 2
    ∷ field 5 "timestamp" "u48_be" 6
    ∷ field 11 "shares" "u64_be" 8
    ∷ field 19 "stock" "ascii" 8
    ∷ field 27 "cross_price" "price4" 4
    ∷ field 31 "match_number" "u64_be" 8
    ∷ field 39 "cross_type" "char" 1
    ∷ [])

unfoldable pub broken_trade : Message
unfolding field message
broken_trade = message "BrokenTrade" b'B' 19 (
    field 1 "stock_locate" "u16_be" 2
    ∷ field 3 "tracking_number" "u16_be" 2
    ∷ field 5 "timestamp" "u48_be" 6
    ∷ field 11 "match_number" "u64_be" 8
    ∷ [])

unfoldable pub noii : Message
unfolding field message
noii = message "Noii" b'I' 50 (
    field 1 "stock_locate" "u16_be" 2
    ∷ field 3 "tracking_number" "u16_be" 2
    ∷ field 5 "timestamp" "u48_be" 6
    ∷ field 11 "paired_shares" "u64_be" 8
    ∷ field 19 "imbalance_shares" "u64_be" 8
    ∷ field 27 "imbalance_direction" "char" 1
    ∷ field 28 "stock" "ascii" 8
    ∷ field 36 "far_price" "price4" 4
    ∷ field 40 "near_price" "price4" 4
    ∷ field 44 "current_reference_price" "price4" 4
    ∷ field 48 "cross_type" "char" 1
    ∷ field 49 "price_variation_indicator" "char" 1
    ∷ [])

unfoldable pub retail_interest : Message
unfolding field message
retail_interest = message "RetailInterest" b'N' 20 (
    field 1 "stock_locate" "u16_be" 2
    ∷ field 3 "tracking_number" "u16_be" 2
    ∷ field 5 "timestamp" "u48_be" 6
    ∷ field 11 "stock" "ascii" 8
    ∷ field 19 "interest_flag" "char" 1
    ∷ [])

unfoldable pub direct_listing_capital_raise : Message
unfolding field message
direct_listing_capital_raise = message "DirectListingCapitalRaise" b'O' 48 (
    field 1 "stock_locate" "u16_be" 2
    ∷ field 3 "tracking_number" "u16_be" 2
    ∷ field 5 "timestamp" "u48_be" 6
    ∷ field 11 "stock" "ascii" 8
    ∷ field 19 "open_eligibility_status" "char" 1
    ∷ field 20 "minimum_allowable_price" "price4" 4
    ∷ field 24 "maximum_allowable_price" "price4" 4
    ∷ field 28 "near_execution_price" "price4" 4
    ∷ field 32 "near_execution_time" "u64_be" 8
    ∷ field 40 "lower_price_range_collar" "price4" 4
    ∷ field 44 "upper_price_range_collar" "price4" 4
    ∷ [])

unfoldable pub itch50 : Protocol
unfolding bytes_of system_event stock_directory stock_trading_action reg_sho_restriction
    market_participant_position mwcb_decline_level mwcb_status ipo_quoting_period_update
    luld_auction_collar operational_halt add_order add_order_with_mpid order_executed
    order_executed_with_price order_cancel order_delete order_replace trade cross_trade broken_trade
    noii retail_interest direct_listing_capital_raise
itch50 = record {
  name = bytes_of "NasdaqITCH50";
  messages =
      system_event ∷ stock_directory ∷ stock_trading_action ∷ reg_sho_restriction
      ∷ market_participant_position ∷ mwcb_decline_level ∷ mwcb_status ∷ ipo_quoting_period_update
      ∷ luld_auction_collar ∷ operational_halt ∷ add_order ∷ add_order_with_mpid ∷ order_executed
      ∷ order_executed_with_price ∷ order_cancel ∷ order_delete ∷ order_replace ∷ trade
      ∷ cross_trade ∷ broken_trade ∷ noii ∷ retail_interest ∷ direct_listing_capital_raise ∷ [];
}

-- The compiler accepts the checked-in schema, and lays it out like this.
pub parse-itch50 : parse itch50_text ≡ ok itch50
unfolding parse itch50_text itch50 is_space
parse-itch50 = refl
