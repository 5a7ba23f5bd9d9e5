-- ===== src/Tests.antt =====
-- Concrete runs of the model, and each theorem at an input that meets its hypotheses.
mod Ids
mod Store
mod Connections
mod Servers
mod Answers
mod Accounts
mod Replies
mod Requests
mod Groups
mod Journeys
mod Searches
mod Logins
mod RoundTrips
mod Values
mod Starts
mod Traces
mod Rings
