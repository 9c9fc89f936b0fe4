-- ===== src/Resolvers.antt =====
-- internal/profile, internal/posttext and internal/did: the resolvers with their caches. Times are in
-- nanoseconds of a clock that does not go back; a call reads it twice, before and after the fetch.
pub mod Cache
pub mod Profile
pub mod PostText
pub mod Did
pub mod Fetch
mod Tests
