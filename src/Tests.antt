-- ===== src/Tests.antt =====
-- Runs of the model on small inputs, and for each theorem with hypotheses an input where they hold.
mod Sample
mod Configs
mod Requests
mod Filters
mod Labels
mod Logs
mod Handlers
mod Daemons
mod Runs
mod Stalls
mod Puts
mod Proxies
mod Base64
mod Advertisements
mod Sites
mod Disks
mod Uploads
mod Objects
mod Releases
