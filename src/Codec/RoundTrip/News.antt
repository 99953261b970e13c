-- ===== src/Codec/RoundTrip/News.antt =====
-- Each decoder of News reads the layout of its message.
use ibkr_go.Prelude.{◌*◌, ◌≡◌, refl, List, [], ◌∷◌, arith, length, length-append}
use ibkr_go.Wire.Fields.{Bytes}
use ibkr_go.Codec.Messages.{
  HistoricalNewsEnd, HistoricalNewsItem, NewsArticleResponse, NewsBulletin, NewsProviderEntry,
  NewsProviders, TickNews, news_bulletin, news_article_response, tick_news, news_providers,
  historical_news_item, historical_news_end,
}
use ibkr_go.Codec.Gives.{Gives, Gives-pure, Gives-int, Gives-string, Gives-bool, Gives-skip}
use ibkr_go.Codec.Gives.Counts.{
  entries_fields, Gives-count, Gives-require, Gives-repeated, All-of_each, suc-mul,
}
use ibkr_go.Codec.Decoders.News.{
  decode_news_bulletins, decode_news_article, decode_tick_news, decode_news_providers,
  decode_historical_news, decode_historical_news_end, read_news_provider_entry,
}
use ibkr_go.Codec.Layouts.Bodies.{
  news_bulletin_fields, news_article_response_fields, tick_news_fields, news_provider_entry_fields,
  news_providers_fields, historical_news_item_fields, historical_news_end_fields,
}
use ibkr_go.Codec.Layouts.{Ranged}

pub news_bulletin-Gives :
    (version : Bytes) (m : NewsBulletin)
    → Ranged (news_bulletin m)
    → Gives decode_news_bulletins (news_bulletin_fields version m) (news_bulletin m ∷ [])
unfolding decode_news_bulletins
news_bulletin-Gives version m h =
    Gives-skip _ (Gives-int _ h.0 (Gives-int _ h.1 (Gives-string _ (Gives-string _ Gives-pure))))

pub news_article_response-Gives :
    (version : Bytes) (m : NewsArticleResponse)
    → Ranged (news_article_response m)
    → Gives decode_news_article
        (news_article_response_fields version m)
        (news_article_response m ∷ [])
unfolding decode_news_article
news_article_response-Gives version m h =
    Gives-int _ h.0 (Gives-int _ h.1 (Gives-string _ Gives-pure))

pub tick_news-Gives :
    (version : Bytes) (m : TickNews)
    → Ranged (tick_news m)
    → Gives decode_tick_news (tick_news_fields version m) (tick_news m ∷ [])
unfolding decode_tick_news
tick_news-Gives version m h =
    Gives-int _ h (
      Gives-string _ (Gives-string _ (Gives-string _ (Gives-string _ (Gives-string _ Gives-pure)))))

news_provider_entry-Gives :
    (e : NewsProviderEntry) → Gives read_news_provider_entry (news_provider_entry_fields e) e
unfolding read_news_provider_entry
news_provider_entry-Gives e = Gives-string _ (Gives-string _ Gives-pure)

length-news_provider_entry :
    (xs : List NewsProviderEntry)
    → length (entries_fields news_provider_entry_fields xs) ≡ length xs * 2
length-news_provider_entry [] = refl
length-news_provider_entry (x ∷ xs) = omega (
  arith,
  length-news_provider_entry xs,
  length-append (news_provider_entry_fields x) (entries_fields news_provider_entry_fields xs),
  suc-mul (length xs) 2,
)

pub news_providers-Gives :
    (version : Bytes) (m : NewsProviders)
    → Ranged (news_providers m)
    → Gives decode_news_providers (news_providers_fields version m) (news_providers m ∷ [])
unfolding decode_news_providers
news_providers-Gives version m h =
    Gives-count _ _ h
      (omega (
        arith,
        length-news_provider_entry m.providers,
        length-append (entries_fields news_provider_entry_fields m.providers) [],
      ))
      (Gives-require _ (length m.providers) 2 _ refl
        (λ left k. omega (
          arith,
          k,
          length-news_provider_entry m.providers,
          length-append (entries_fields news_provider_entry_fields m.providers) [],
        ))
        (Gives-repeated read_news_provider_entry news_provider_entry_fields _
          (All-of_each news_provider_entry-Gives m.providers) Gives-pure))

pub historical_news_item-Gives :
    (version : Bytes) (m : HistoricalNewsItem)
    → Ranged (historical_news_item m)
    → Gives decode_historical_news
        (historical_news_item_fields version m)
        (historical_news_item m ∷ [])
unfolding decode_historical_news
historical_news_item-Gives version m h =
    Gives-int _ h (Gives-string _ (Gives-string _ (Gives-string _ (Gives-string _ Gives-pure))))

pub historical_news_end-Gives :
    (version : Bytes) (m : HistoricalNewsEnd)
    → Ranged (historical_news_end m)
    → Gives decode_historical_news_end
        (historical_news_end_fields version m)
        (historical_news_end m ∷ [])
unfolding decode_historical_news_end
historical_news_end-Gives version m h = Gives-int _ h (Gives-bool _ Gives-pure)
